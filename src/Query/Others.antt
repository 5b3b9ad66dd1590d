-- ===== src/Query/Others.antt =====
-- include/query/InviteService.hpp, MailSmsService.hpp, InfoService.hpp and NotFoundService.hpp:
-- the endpoints of invitations, of the mail program and of the server's state.
use identt.Prelude.{Bytes, [], false, Option, none, some, beq, if◌then◌else◌}
use identt.Exception.{Result, ok, err, bad_data}
use identt.Server.{World, Server, Action, return, lift, ◌>>=◌, ◌>>◌}
use identt.Services.Requests.{blank_invite_result}
use identt.Services.MailSms.{pending}
use identt.Hrpc.Master.{m_storeinvite, m_pending, store_invite_on}
use identt.Query.{
  Http, HttpRequest, HttpReply, http_ok, http_error, Info, http_endpoint, read_body, read_json,
  ready, check_access, at_master,
}

-- The check of `Shared-Secret` by getmailstosend.
unfoldable pub check_secret : Bytes → Option Bytes → Result Bytes
check_secret secret none = err (bad_data "No Header Shared Secret")
check_secret secret (some given) =
    if beq given secret then ok given else err (bad_data "Bad Shared Secret")

module _ {Value Db : Type 0} (w : World Value Db) (h : Http) where
  -- POST store-invite
  unfoldable pub store_invite_post : HttpRequest → Action (Server Value Db) HttpReply
  unfolding ready check_access at_master
  store_invite_post request = http_endpoint h.write (do
    invqry ← lift (read_json h.read.invite "Content-Type json only allowed" request)
    ready w h
    check_access w h h.invite_requires_key invqry.accesskey request
    done ←
        at_master w h m_storeinvite h.codecs.store_invite (store_invite_on w h.ambient)
          (record { invqry = invqry; invres = blank_invite_result })
    return (h.write.invite_result done.invres))

  -- POST getmailstosend
  unfoldable pub mails_post : HttpRequest → Action (Server Value Db) HttpReply
  unfolding ready at_master check_secret
  mails_post request = http_endpoint h.write (do
    mailq ← lift (read_body h.read.mail request)
    ready w h
    secret ← lift (check_secret h.secret request.shared_secret)
    done ←
        at_master w h m_pending h.codecs.mail (pending w) (record mailq { shared_secret = secret })
    return (h.write.mail (record done { shared_secret = [] })))

  -- What GET info shows of the server.
  unfoldable pub info_of : Server Value Db → Info
  info_of s = record {
    hostname = if s.is_ready then s.hostname else [];
    master = if s.is_ready then (if s.is_master then [] else s.master) else [];
    is_master = if s.is_ready then s.is_master else false;
    is_ready = s.is_ready;
    ts = w.currtime;
  }

  -- GET info, which reads the server and throws nothing.
  unfoldable pub info_get : Action (Server Value Db) HttpReply
  unfolding info_of
  info_get s = (ok (http_ok (h.write.info (info_of s))), s)

  -- NotFoundService: every other path.
  unfoldable pub not_found : Action (Server Value Db) HttpReply
  not_found s = (ok (http_error 404), s)
