-- ===== src/Hrpc/Forward.antt =====
-- A slave's call of an action of its master, compared with the action itself.
use identt.Prelude.{
  ℕ, ◌^◌, ◌<◌, ◌≡◌, ◌≢◌, refl, ap, sym, ◌∙◌, Bytes, [], true, false, some, ◌==◌, beq_refl, codes,
  starts_with, c_str, arith, inl, inr,
}
use identt.Exception.{Exception, Result, Result-cases, ok, err, undefined, remote_sydent, what}
use identt.Bin2Ascii.Base64.{b64_encode, b64_decode-b64_encode}
use identt.Bin2Ascii.Hex.{AllBytes}
use identt.Server.{World, Server, Action, continue, return}
use identt.Services.Numbers.{to_string}
use identt.Services.Decimal.{stoi-to_string}
use identt.Hrpc.{
  Wire, ProtoRequest, ProtoReply, m_unknown, proto_request, shared_secret_ok, service_name,
  service_ok, service_err, proto_post, parsed, rethrow, read_message, master_reply, send_to_master,
  either_header, is_base64,
}
use identt.Hrpc.Master.{
  MasterCodecs, Ambient, serve_message, dispatch, master_output, respond, master_endpoint,
}

-- What the client's HTTP library gives: no response has the status 0.
unfoldable pub delivered : Result ProtoReply → ProtoReply
delivered (ok reply) = reply
delivered (err x) = record {
  status_code = 0;
  service_error = [];
  transfer_encoding = [];
  text = [];
}

-- An exception comes to the slave as a SydentException with the code M_UNKNOWN and its text
-- up to the first NUL.
unfoldable pub as_seen : {M S : Type 0} → Result M × S → Result M × S
as_seen (ok r, s) = (ok r, s)
as_seen (err x, s) = (err (remote_sydent (c_str (what x)) m_unknown), s)

-- The message is parsed as it was serialized, to bytes.
pub record Carries {M : Type 0} (wire : Wire M) (msg : M) : Type 0 where
  pub parse-serialize : wire.parse (wire.serialize msg) ≡ some msg
  pub bytes : AllBytes (wire.serialize msg)

module _ {Value Db M : Type 0} (w : World Value Db) (env : Ambient) (c : MasterCodecs)
    (secret : Bytes) (codec : Wire M) where
  -- A slave sends a message to its master, whose state is `m`: what the slave gets, and the state
  -- of the master after it.
  unfoldable pub remote_call : Bytes → ℕ → M → Action (Server Value Db) M
  remote_call url id msg m = (
    send_to_master (λ u request. delivered (master_endpoint w env c secret request m).0) secret url
        id codec msg,
    (master_endpoint w env c secret (proto_post secret id (codec.serialize msg)) m).1,
  )

  -- `id` is the service whose action is `act`.
  pub record Case (id : ℕ) (act : M → Action (Server Value Db) M) : Type 0 where
    pub positive : (id == 0) ≡ false
    pub small : id < 2 ^ 31
    pub there :
        (content : Bytes) → dispatch w env c id content ≡ serve_message w env codec act content

  is_proto : (id : ℕ) (body : Bytes) → proto_request (proto_post secret id body) ≡ ok true
  unfolding proto_request proto_post either_header is_base64 starts_with
  is_proto id body = refl

  is_secret : (id : ℕ) (body : Bytes) → shared_secret_ok (proto_post secret id body) secret ≡ true
  unfolding shared_secret_ok proto_post
  is_secret id body = beq_refl secret

  is_service :
      (id : ℕ) (body : Bytes) → id < 2 ^ 31 → service_name (proto_post secret id body) ≡ ok id
  unfolding service_name proto_post
  is_service id body small = stoi-to_string id small

  is_content : (id : ℕ) (body : Bytes) → (proto_post secret id body).content ≡ b64_encode body false
  unfolding proto_post
  is_content id body = refl

  module _ (m : Server Value Db) (ready : m.is_ready ≡ true) (master : m.is_master ≡ true) where
    output_lem :
        (id : ℕ) (body : Bytes)
        → id < 2 ^ 31
        → master_output w env c secret (proto_post secret id body) m
          ≡ dispatch w env c id (b64_encode body false) m
    unfolding master_output
    output_lem id body small =
        rw (is_proto id body, is_secret id body, is_service id body small, ready, master)
          (rw (is_content id body))

    serve_message_lem :
        (act : M → Action (Server Value Db) M) (msg : M)
        → Carries codec msg
        → serve_message w env codec act (b64_encode (codec.serialize msg) false) m
          ≡ continue (act msg m) (λ done. return (codec.serialize done))
    unfolding serve_message parsed
    serve_message_lem act msg carried =
        rw (b64_decode-b64_encode (codec.serialize msg) carried.bytes)
          (rw (carried.parse-serialize, parsed))

    -- The reply to a call that has succeeded is read as the message that the action has filled.
    ok_reply :
        (id : ℕ) (body : Bytes) (r : M)
        → id < 2 ^ 31
        → Carries codec r
        → (reply : ProtoReply) × (respond w env (proto_post secret id body) (ok (codec.serialize r))
            ≡ ok reply)
          × (master_reply codec reply ≡ ok r)
    unfolding respond service_ok master_reply read_message parsed
    ok_reply id body r small carried = (
      record {
        status_code = 200;
        service_error = [];
        transfer_encoding = codes "base64";
        text = b64_encode (codec.serialize r) false;
      },
      rw (is_service id body small),
      rw (beq_refl (codes "base64")) (
          rw (b64_decode-b64_encode (codec.serialize r) carried.bytes)
            (rw (carried.parse-serialize, parsed))),
    )

    -- That to a call that has thrown is read as M_UNKNOWN.
    unknown_reply :
        (id : ℕ) (body : Bytes) (x : Exception)
        → id < 2 ^ 31
        → (reply : ProtoReply) × (service_err (proto_post secret id body) m_unknown (what x)
            ≡ ok reply)
          × (master_reply codec reply ≡ err (remote_sydent (c_str (what x)) m_unknown))
    unfolding service_err master_reply rethrow to_string
    unknown_reply id body x small = (
      record {
        status_code = 200;
        service_error = to_string m_unknown;
        transfer_encoding = [];
        text = what x;
      },
      rw (is_service id body small),
      rw (stoi-to_string m_unknown (omega arith)),
    )

    respond_err :
        (request : ProtoRequest) (x : Exception)
        → x ≢ undefined
        → respond w env request (err x) ≡ service_err request m_unknown (what x)
    unfolding respond
    respond_err request undefined n = absurd (n refl)
    respond_err request x n = refl

    called :
        (url : Bytes) (id : ℕ) (msg : M) (m' : Server Value Db) (reply : ProtoReply)
        (res : Result M)
        → (id == 0) ≡ false
        → master_endpoint w env c secret (proto_post secret id (codec.serialize msg)) m
          ≡ (ok reply, m')
        → master_reply codec reply ≡ res
        → remote_call url id msg m ≡ (res, m')
    unfolding remote_call send_to_master delivered
    called url id msg m' reply res positive replied read =
        rw (replied, positive, delivered) (ap (λ x. (x, m')) read)

    endpoint_of :
        (id : ℕ) (body : Bytes) (out : Result Bytes) (m' : Server Value Db) (reply : ProtoReply)
        → master_output w env c secret (proto_post secret id body) m ≡ (out, m')
        → respond w env (proto_post secret id body) out ≡ ok reply
        → master_endpoint w env c secret (proto_post secret id body) m ≡ (ok reply, m')
    unfolding master_endpoint
    endpoint_of id body out m' reply h r = rw h (ap (λ x. (x, m')) r)

    -- A call for a service whose action is `act`.
    pub remote_call-Case :
        (url : Bytes) (id : ℕ) (act : M → Action (Server Value Db) M) (msg : M)
        → Case id act
        → Carries codec msg
        → ((r : M) → (act msg m).0 ≡ ok r → Carries codec r)
        → (act msg m).0 ≢ err undefined
        → remote_call url id msg m ≡ as_seen (act msg m)
    unfolding as_seen
    remote_call-Case url id act msg case sent answered defined =
        let m' : Server Value Db = (act msg m).1 in
        let out =
          output_lem id (codec.serialize msg) case.small
          ∙ ap (λ f. f m) (case.there (b64_encode (codec.serialize msg) false))
          ∙ serve_message_lem act msg sent in
        elim (Result-cases (act msg m).0) [
          | inl (r, e) ↦
              let pair : act msg m ≡ (ok r, m') = ap (λ x. (x, m')) e in
              let (reply, responds, read) =
                ok_reply id (codec.serialize msg) r case.small (answered r e) in
              called url id msg m' reply (ok r) case.positive
                (endpoint_of id (codec.serialize msg) (ok (codec.serialize r)) m' reply
                  (out ∙ ap (λ x. continue x (λ done. return (codec.serialize done))) pair)
                  responds)
                read
              ∙ ap as_seen (sym pair)
          | inr (x, e) ↦
              let pair : act msg m ≡ (err x, m') = ap (λ x. (x, m')) e in
              let (reply, responds, read) = unknown_reply id (codec.serialize msg) x case.small in
              called url id msg m' reply (err (remote_sydent (c_str (what x)) m_unknown))
                case.positive
                (endpoint_of id (codec.serialize msg) (err x) m' reply
                  (out ∙ ap (λ x. continue x (λ done. return (codec.serialize done))) pair)
                  (respond_err (proto_post secret id (codec.serialize msg)) x
                      (λ same. defined (e ∙ ap (λ y. err y) same))
                    ∙ responds))
                read
              ∙ ap as_seen (sym pair)
        ]
