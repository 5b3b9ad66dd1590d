-- ===== src/Hrpc/Served.antt =====
-- The services that a master has for its slaves: each with its number, its message and the action
-- that the endpoints of include/query do for it when the server is itself the master.
use identt.Prelude.{ℕ, ◌≡◌, ◌≢◌, refl, Bytes, true, arith}
use identt.Exception.{ok, err, undefined}
use identt.Server.{World, Server, Action}
use identt.Services.Requests.{AccessBlob}
use identt.Services.Access.{get_blob_data}
use identt.Services.MailSms.{MailQuery, pending}
use identt.Hrpc.{Wire}
use identt.Hrpc.Master.{
  m_requesttoken, m_submittoken, m_getvalidated3pid, m_bind3pid, m_lookup, m_bulklookup,
  m_getpubkey, m_getpubkeyvalid, m_getephemeralvalid, m_storeinvite, m_pending, m_getaccesskey,
  m_setblobdata, m_getblobdata, RequestTokenData, SubmitTokenData, GetValidated3pidData,
  Bind3pidData, LookupData, BulkLookupData, PubKey, StoreInviteData, GetAccessData, MasterCodecs,
  Ambient, request_token_on, submit_token_on, get_validated_on, bind_on, lookup_on, bulk_lookup_on,
  get_pub_key_on, get_pub_key_valid_on, get_ephemeral_valid_on, store_invite_on, get_access_on,
  set_blob_on, dispatch,
}
use identt.Hrpc.Forward.{Case, Carries, remote_call, remote_call-Case, as_seen}

-- The values of `MasterCmdTypeE` that the endpoint of the master serves.
pub data Service : Type 0 where
  requesttoken_service : Service
  submittoken_service : Service
  getvalidated3pid_service : Service
  bind3pid_service : Service
  lookup_service : Service
  bulklookup_service : Service
  getpubkey_service : Service
  getpubkeyvalid_service : Service
  getephemeralvalid_service : Service
  storeinvite_service : Service
  pending_service : Service
  getaccesskey_service : Service
  setblobdata_service : Service
  getblobdata_service : Service

unfoldable pub number : Service → ℕ
number requesttoken_service = m_requesttoken
number submittoken_service = m_submittoken
number getvalidated3pid_service = m_getvalidated3pid
number bind3pid_service = m_bind3pid
number lookup_service = m_lookup
number bulklookup_service = m_bulklookup
number getpubkey_service = m_getpubkey
number getpubkeyvalid_service = m_getpubkeyvalid
number getephemeralvalid_service = m_getephemeralvalid
number storeinvite_service = m_storeinvite
number pending_service = m_pending
number getaccesskey_service = m_getaccesskey
number setblobdata_service = m_setblobdata
number getblobdata_service = m_getblobdata

-- The message that carries the query of a service and its result.
unfoldable pub Message : Service → Type 0
Message requesttoken_service = RequestTokenData
Message submittoken_service = SubmitTokenData
Message getvalidated3pid_service = GetValidated3pidData
Message bind3pid_service = Bind3pidData
Message lookup_service = LookupData
Message bulklookup_service = BulkLookupData
Message getpubkey_service = PubKey
Message getpubkeyvalid_service = PubKey
Message getephemeralvalid_service = PubKey
Message storeinvite_service = StoreInviteData
Message pending_service = MailQuery
Message getaccesskey_service = GetAccessData
Message setblobdata_service = AccessBlob
Message getblobdata_service = AccessBlob

unfoldable pub wire_of : MasterCodecs → (service : Service) → Wire (Message service)
unfolding Message
wire_of c requesttoken_service = c.request_token
wire_of c submittoken_service = c.submit_token
wire_of c getvalidated3pid_service = c.get_validated
wire_of c bind3pid_service = c.bind
wire_of c lookup_service = c.lookup
wire_of c bulklookup_service = c.bulk_lookup
wire_of c getpubkey_service = c.pub_key
wire_of c getpubkeyvalid_service = c.pub_key
wire_of c getephemeralvalid_service = c.pub_key
wire_of c storeinvite_service = c.store_invite
wire_of c pending_service = c.mail
wire_of c getaccesskey_service = c.get_access
wire_of c setblobdata_service = c.blob
wire_of c getblobdata_service = c.blob

module _ {Value Db : Type 0} (w : World Value Db) (env : Ambient) where
  -- The action of a service.
  unfoldable pub action_of :
      (service : Service) → Message service → Action (Server Value Db) (Message service)
  unfolding Message
  action_of requesttoken_service = request_token_on w env
  action_of submittoken_service = submit_token_on w env
  action_of getvalidated3pid_service = get_validated_on w env
  action_of bind3pid_service = bind_on w env
  action_of lookup_service = lookup_on w env
  action_of bulklookup_service = bulk_lookup_on w env
  action_of getpubkey_service = get_pub_key_on w env
  action_of getpubkeyvalid_service = get_pub_key_valid_on w env
  action_of getephemeralvalid_service = get_ephemeral_valid_on w env
  action_of storeinvite_service = store_invite_on w env
  action_of pending_service = pending w
  action_of getaccesskey_service = get_access_on w env
  action_of setblobdata_service = set_blob_on w env
  action_of getblobdata_service = get_blob_data w

  module _ (c : MasterCodecs) (secret : Bytes) where
    -- The switch of the endpoint goes to the action of the service.
    served :
        (service : Service)
        → Case w env c secret (wire_of c service) (number service) (action_of service)
    unfolding number Message wire_of action_of dispatch
    served requesttoken_service = record {
      positive = refl;
      small = omega arith;
      there = λ content. refl;
    }
    served submittoken_service = record {
      positive = refl;
      small = omega arith;
      there = λ content. refl;
    }
    served getvalidated3pid_service = record {
      positive = refl;
      small = omega arith;
      there = λ content. refl;
    }
    served bind3pid_service = record {
      positive = refl;
      small = omega arith;
      there = λ content. refl;
    }
    served lookup_service = record { positive = refl; small = omega arith; there = λ content. refl }
    served bulklookup_service = record {
      positive = refl;
      small = omega arith;
      there = λ content. refl;
    }
    served getpubkey_service = record {
      positive = refl;
      small = omega arith;
      there = λ content. refl;
    }
    served getpubkeyvalid_service = record {
      positive = refl;
      small = omega arith;
      there = λ content. refl;
    }
    served getephemeralvalid_service = record {
      positive = refl;
      small = omega arith;
      there = λ content. refl;
    }
    served storeinvite_service = record {
      positive = refl;
      small = omega arith;
      there = λ content. refl;
    }
    served pending_service = record {
      positive = refl;
      small = omega arith;
      there = λ content. refl;
    }
    served getaccesskey_service = record {
      positive = refl;
      small = omega arith;
      there = λ content. refl;
    }
    served setblobdata_service = record {
      positive = refl;
      small = omega arith;
      there = λ content. refl;
    }
    served getblobdata_service = record {
      positive = refl;
      small = omega arith;
      there = λ content. refl;
    }

    -- A slave sends the message of a service to a master that is ready, with the secret that the
    -- two share, where the message and what the action makes of it are parsed as they were
    -- serialized, and the action does not run into undefined behaviour. The master does what the
    -- action of that service does, and the slave gets what the action gives; of an exception it
    -- gets the text up to the first NUL, as a SydentException with the code M_UNKNOWN.
    pub remote_call_lem :
        (service : Service) (url : Bytes) (msg : Message service) (m : Server Value Db)
        → m.is_ready ≡ true
        → m.is_master ≡ true
        → Carries (wire_of c service) msg
        → ((r : Message service)
            → (action_of service msg m).0 ≡ ok r
            → Carries (wire_of c service) r)
        → (action_of service msg m).0 ≢ err undefined
        → remote_call w env c secret (wire_of c service) url (number service) msg m
          ≡ as_seen (action_of service msg m)
    remote_call_lem service url msg m ready master sent answered defined =
        remote_call-Case w env c secret (wire_of c service) m ready master url (number service)
          (action_of service) msg (served service) sent answered defined
