-- ===== src/Query/Forwarded.antt =====
-- Proofs on the endpoints of include/query/ValidateService.hpp, on a slave and on its master.
use identt.Prelude.{Bytes, not, none, if◌then◌else◌, ◌≡◌, ◌≢◌, refl, ap, ◌∙◌, true, false}
use identt.Exception.{Result, ok, err, undefined, bad_data, throw_if}
use identt.Server.{World, Server, continue, return, ◌>>=◌}
use identt.Services.Requests.{SubmitToken}
use identt.Hrpc.{send_to_master}
use identt.Hrpc.Master.{SubmitTokenData, m_submittoken, submit_token_on, master_endpoint}
use identt.Hrpc.Forward.{Carries, delivered, remote_call, as_seen}
use identt.Hrpc.Served.{
  Service, submittoken_service, number, Message, wire_of, action_of, remote_call_lem,
}
use identt.Query.{Http, HttpRequest, http_endpoint, reply, read_body, ready, at_master}
use identt.Query.Sessions.{submit_token_post, submit_token_with}

abbrev pub asked_submit : SubmitToken → HttpRequest → SubmitTokenData
asked_submit subtok request = record {
  subtok = subtok;
  result = none;
  medium = request.path_match 1;
}

module _ {Value Db : Type 0} (w : World Value Db) (h : Http) where
  -- The server `s` is a slave of the server `m`, to which its calls go.
  pub record IsSlaveOf (s m : Server Value Db) : Type 0 where
    pub slave : s.is_master ≡ false
    pub slave_ready : s.is_ready ≡ true
    pub master : m.is_master ≡ true
    pub master_ready : m.is_ready ≡ true
    pub calls :
        h.post
        ≡ (λ url request. delivered (master_endpoint w h.ambient h.codecs h.secret request m).0)

  module _ (s m : Server Value Db) (link : IsSlaveOf s m) where
    -- What an endpoint gets from an action on a slave, and what it gets on the master.
    pub at_master_lem :
        (service : Service) (msg : Message service)
        → Carries (wire_of h.codecs service) msg
        → ((done : Message service)
            → (action_of w h.ambient service msg m).0 ≡ ok done
            → Carries (wire_of h.codecs service) done)
        → (action_of w h.ambient service msg m).0 ≢ err undefined
        → ((at_master w h
              (number service)
              (wire_of h.codecs service)
              (action_of w h.ambient service)
              msg
              s).0
            ≡ (as_seen (action_of w h.ambient service msg m)).0)
          × (at_master w h
                (number service)
                (wire_of h.codecs service)
                (action_of w h.ambient service)
                msg
                m
              ≡ action_of w h.ambient service msg m)
    unfolding at_master remote_call
    at_master_lem service msg sent answered defined = (
      rw (link.slave) (
          ap
            (λ p.
              send_to_master p h.secret s.master (number service) (wire_of h.codecs service) msg)
            link.calls
          ∙ ap (λ x. x.0)
              (remote_call_lem w h.ambient h.codecs h.secret service s.master msg m
                link.master_ready link.master sent answered defined)),
      ap
          (λ b. if b then action_of w h.ambient service msg m else (
            send_to_master h.post h.secret m.master (number service) (wire_of h.codecs service) msg,
            m,
          ))
          link.master,
    )

  -- What submitToken writes of the outcome of the action.
  unfoldable pub shown : Result SubmitTokenData → Result Bytes
  shown (ok done) = ok (h.write.outcome done.result)
  shown (err x) = err x

  continue-shown :
      (x : Result SubmitTokenData × Server Value Db)
      → (continue x (λ d. return (h.write.outcome d.result))).0 ≡ shown x.0
  unfolding shown
  continue-shown (ok d, s) = refl
  continue-shown (err x, s) = refl

  submit_token_read :
      (request : HttpRequest) (subtok : SubmitToken) (r : Result SubmitTokenData)
      (s : Server Value Db)
      → s.is_ready ≡ true
      → read_body h.read.submit_token request ≡ ok subtok
      → (at_master w h m_submittoken h.codecs.submit_token
          (submit_token_on w h.ambient)
          (asked_submit subtok request)
          s).0
        ≡ r
      → (submit_token_post w h request s).0 ≡ reply h.write (shown r)
  unfolding submit_token_post submit_token_with http_endpoint ready
  submit_token_read request subtok r s is_ready body e = ap (reply h.write) (
      ap (λ r. (continue (r, s) (λ t. submit_token_with w h t (request.path_match 1))).0) body
      ∙ ap
          (λ b.
            (continue (throw_if (not b) (bad_data "System Not Ready"), s)
              (λ u.
                at_master w h m_submittoken h.codecs.submit_token (submit_token_on w h.ambient)
                  (asked_submit subtok request)
                >>= λ d. return (h.write.outcome d.result))).0)
          is_ready
      ∙ continue-shown (
          at_master w h m_submittoken h.codecs.submit_token (submit_token_on w h.ambient)
            (asked_submit subtok request) s)
      ∙ ap shown e)

  -- POST submitToken, where the body can be read, the messages are parsed as they were serialized
  -- and the action does not run into undefined behaviour. The master replies with the outcome or
  -- the error of its action. The slave, on its own state and whatever that holds, replies with
  -- the same outcome, and of an error with its text up to the first NUL under M_UNKNOWN.
  pub submit_token_post_forwarded :
      (request : HttpRequest) (subtok : SubmitToken) (s m : Server Value Db)
      → IsSlaveOf s m
      → read_body h.read.submit_token request ≡ ok subtok
      → Carries h.codecs.submit_token (asked_submit subtok request)
      → ((done : SubmitTokenData)
          → (submit_token_on w h.ambient (asked_submit subtok request) m).0 ≡ ok done
          → Carries h.codecs.submit_token done)
      → (submit_token_on w h.ambient (asked_submit subtok request) m).0 ≢ err undefined
      → ((submit_token_post w h request s).0
          ≡ reply h.write
              (shown (as_seen (submit_token_on w h.ambient (asked_submit subtok request) m)).0))
        × ((submit_token_post w h request m).0
            ≡ reply h.write (shown (submit_token_on w h.ambient (asked_submit subtok request) m).0))
  unfolding Message number wire_of action_of
  submit_token_post_forwarded request subtok s m link body sent answered defined =
      let both =
        at_master_lem s m link submittoken_service (asked_submit subtok request) sent answered
          defined in
      (
        submit_token_read request subtok
            (as_seen (submit_token_on w h.ambient (asked_submit subtok request) m)).0 s
            link.slave_ready body both.0,
        submit_token_read request subtok
            (submit_token_on w h.ambient (asked_submit subtok request) m).0 m link.master_ready body
            (ap (λ x. x.0) both.1),
      )
