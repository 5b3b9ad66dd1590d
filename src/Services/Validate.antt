-- ===== src/Services/Validate.antt =====
-- src/store/ValidateService.cc: a token for an address is requested, then submitted.
use identt.Prelude.{
  ℕ, ◌%◌, Bytes, List, [], ◌∷◌, ◌++◌, Bool, true, false, ◌||◌, not, Option, none, some, ◌==◌, ltb,
  length, take, drop, beq, codes, map, if◌then◌else◌,
}
use identt.Exception.{Result, ok, err, sydent}
use identt.Keys.{
  u_validationsession_medium_address_clientsecret, u_tokenauth_validationsession,
  k_validationsession,
}
use identt.Messages.{TransItem}
use identt.Server.{World, Server, Action, return, lift, next_main, ◌>>=◌, ◌>>◌}
use identt.Tables.Records.{
  ValidationSession, blank_validation_session, TokenAuth, blank_token_auth, ParAvion,
  blank_par_avion,
}
use identt.Tables.Mail.{blank_payload}
use identt.Tables.Unique.{validation_session_table, token_auth_table}
use identt.Tables.Indexes.{par_avion_table}
use identt.Services.Requests.{
  RequestToken, SuccessSid, SubmitToken, Outcome, now_validated, already_validated,
  session_lifetime, m_invalid_email, m_invalid_phone_number, m_no_valid_session,
  m_incorrect_client_secret, m_session_expired,
}
use identt.Services.Numbers.{stoul, to_string, pad_ones, tolower, int_gt, minus}
use identt.Services.Common.{find, add, commit_items}

-- A_AUTHTOKEN
abbrev pub a_authtoken : ℕ
a_authtoken = 11

-- `it` of `ValidIsdCodes.find(country)`, the code itself.
unfoldable pub find_isd : Bytes → List (Bytes × Bytes) → Option Bytes
find_isd country [] = none
find_isd country ((c, code) ∷ rest) = if beq c country then some code else find_isd country rest

-- The number without "+" or "00" in front.
unfoldable pub strip_isd : Bytes → Bytes
strip_isd phone =
    if beq (take 1 phone) (codes "+")
    then drop 1 phone
    else if beq (take 2 phone) (codes "00")
    then drop 2 phone
    else phone

-- The end of the case "msisdn" (IDENTT_STORE_ADD_ISD unset).
unfoldable pub match_isd : Bytes → Option Bytes → Result Bytes
match_isd phone none = err (sydent "This country code is not supported" m_invalid_phone_number)
match_isd phone (some code) =
    if beq (take (length code) phone) code
    then ok phone
    else err (sydent "Number has different country code" m_invalid_phone_number)

-- PopulateAddress, with the table `ValidIsdCodes`.
unfoldable pub populate_address : List (Bytes × Bytes) → RequestToken → Bytes → Result Bytes
populate_address isd_codes reqtok medium =
    if beq medium (codes "email")
    then (if ltb (length reqtok.email) 5
        then err (sydent "Invalid Email" m_invalid_email)
        else ok (map tolower reqtok.email))
    else if beq medium (codes "msisdn")
    then (if ltb (length reqtok.phone_number) 5
        then err (sydent "Invalid Phone No" m_invalid_phone_number)
        else if length reqtok.country == 2
        then match_isd (strip_isd reqtok.phone_number) (find_isd reqtok.country isd_codes)
        else err (sydent "Only 2 letter country code supported" m_invalid_phone_number))
    else err (sydent "Invalid Email or phone no type" m_invalid_email)

module _ {Value Db : Type 0} (w : World Value Db) where
  -- The session of the request: whether it had expired, the session, and the transaction.
  unfoldable pub open_session :
      Bool × ValidationSession
      → Action (Server Value Db) (Bool × (ValidationSession × List (TransItem Value)))
  open_session (true, session) =
      let renewed = record session { mtime = w.currtime } in
      if ltb session_lifetime (minus w.currtime session.mtime)
      then (do
        trans ←
            add w (validation_session_table w.validation_session) renewed [] true
              "Cannot Insert vsession"
        return (true, (renewed, trans)))
      else return (false, (session, []))
  open_session (false, session) = do
    id ← next_main
    let fresh = record session { id = id; mtime = w.currtime }
    trans ←
        add w (validation_session_table w.validation_session) fresh [] false
          "Cannot Insert vsession"
    return (false, (fresh, trans))

  -- The id of a token is new unless there was one.
  unfoldable pub token_id : Bool → TokenAuth → Action (Server Value Db) ℕ
  token_id true token = return token.id
  token_id false token = next_main

  -- `tok_str`: a new token if there was none or the session had expired.
  unfoldable pub token_text : Bool → Bool → TokenAuth → Bytes
  token_text found expired token =
      if not found || expired then pad_ones (to_string (w.currtime % 999999)) else token.token

  -- What is to be sent to the address.
  unfoldable pub token_mail :
      RequestToken → Bytes × Bytes → ValidationSession → Bytes → ℕ → ParAvion
  token_mail reqtok (medium, address) session text id = record blank_par_avion {
    id = id;
    payload = some (record blank_payload {
      id = id;
      medium = medium;
      address = address;
      actkey = a_authtoken;
      retry = reqtok.send_attempt;
      mpone = some (record {
        sid = to_string session.id;
        country = reqtok.country;
        token = text;
        phone_no_isd = [];
      });
    });
  }

  -- The block under `generate_token`; the token comes back.
  unfoldable pub generate :
      RequestToken
      → Bytes × Bytes
      → Bool
      → ValidationSession
      → List (TransItem Value)
      → Bool
      → TokenAuth
      → Action (Server Value Db) Bytes
  generate reqtok to expired session trans found token = do
    id ← token_id found token
    let text = token_text found expired token
    let new_token = record token {
      id = id;
      token = text;
      send_attempt_number = reqtok.send_attempt;
    }
    trans ← add w (token_auth_table w.token_auth) new_token trans found "Cannot Insert tokenauth"
    mail_id ← next_main
    trans ←
        add w (par_avion_table w.par_avion) (token_mail reqtok to session text mail_id) trans false
          "Cannot Insert paravion"
    commit_items w trans
    return text

  -- `generate_token`
  unfoldable pub must_generate : RequestToken → Bool → Bool → TokenAuth → Bool
  must_generate reqtok expired found token =
      not found || (expired || int_gt reqtok.send_attempt token.send_attempt_number)

  unfoldable pub token_step :
      RequestToken
      → Bytes × Bytes
      → Bool
      → ValidationSession
      → List (TransItem Value)
      → Bool × TokenAuth
      → Action (Server Value Db) Bytes
  token_step reqtok to expired session trans (found, token) =
      if must_generate reqtok expired found token
      then generate reqtok to expired session trans found token
      else return token.token

  unfoldable pub success : Bytes → Bytes → ValidationSession → SuccessSid
  success medium address session = record {
    success = true;
    sid = to_string session.id;
    msisdn = if beq medium (codes "msisdn") then address else [];
    intl_fmt = if beq medium (codes "msisdn") then codes "+" ++ address else [];
  }

  -- RequestTokenAction: the token that is passed back, and the response.
  unfoldable pub request_token :
      List (Bytes × Bytes) → Bytes → RequestToken → Action (Server Value Db) (Bytes × SuccessSid)
  request_token isd_codes medium reqtok = do
    address ← lift (populate_address isd_codes reqtok medium)
    let asked = record blank_validation_session {
      medium = medium;
      address = address;
      client_secret = reqtok.client_secret;
    }
    found ←
        find w (validation_session_table w.validation_session) asked
          u_validationsession_medium_address_clientsecret
    opened ← open_session found
    let session = opened.1.0
    token ←
        find w (token_auth_table w.token_auth)
          (record blank_token_auth { validation_session = session.id })
          u_tokenauth_validationsession
    text ← token_step reqtok (medium, address) opened.0 session opened.1.1 token
    return (text, success medium address session)

  -- The checks of `SubmitTokenAction`: first those of the token ...
  unfoldable pub check_token : SubmitToken → Bool × TokenAuth → Result TokenAuth
  check_token subtok (found, token) =
      if not found
      then err (sydent "Sid not found" m_no_valid_session)
      else if not (beq token.token subtok.token)
      then err (sydent "Token does not match " m_no_valid_session)
      else ok token

  -- ... then those of the session.
  unfoldable pub check_open : SubmitToken → Bool × ValidationSession → Result ValidationSession
  check_open subtok (found, session) =
      if not found
      then err (sydent "Session not found" m_no_valid_session)
      else if not (beq session.client_secret subtok.client_secret)
      then err (
          sydent "Client secret does not match the one given when requesting the token"
            m_incorrect_client_secret)
      else if ltb session_lifetime (minus w.currtime session.mtime)
      then err (sydent "This validation session has expired" m_session_expired)
      else ok session

  -- The end of `SubmitTokenAction`.
  unfoldable pub validate : ValidationSession → Action (Server Value Db) Outcome
  validate session =
      let validated_session = record session { validated = 1; mtime = w.currtime } in
      if ltb 0 session.validated then return already_validated else do
        trans ←
            add w (validation_session_table w.validation_session) validated_session [] true
              "Cannot Insert vsession"
        commit_items w trans
        return now_validated

  -- SubmitTokenAction
  unfoldable pub submit_token : SubmitToken → Action (Server Value Db) Outcome
  submit_token subtok = do
    sid ← lift (stoul subtok.sid)
    found ←
        find w (token_auth_table w.token_auth)
          (record blank_token_auth { validation_session = sid }) u_tokenauth_validationsession
    token ← lift (check_token subtok found)
    stored ←
        find w (validation_session_table w.validation_session)
          (record blank_validation_session { id = token.validation_session }) k_validationsession
    session ← lift (check_open subtok stored)
    validate session
