-- ===== src/Lib.antt =====
-- A model of identt, an identity server for Matrix: it keeps which address (email or phone number)
-- belongs to which user in a key-value store, and replicates the store from a master to slaves.
--
-- The parts and how they interact. A service action (src/store/*Service.cc) reads records through
-- tables (include/store/StoreTable.hpp, src/store/*Table.cc), collects the changes as items of a
-- transaction, and commits it (src/store/StoreTrans.cc): the transaction is written to the log under
-- the next log id and its items to the data. A slave asks its master for the log (src/hrpc), commits
-- what it gets, and elects a new master when the old one is gone. An HTTP endpoint (include/query)
-- reads a request, calls an action, on a slave that of its master, and writes the reply.
--
-- Which file models what:
--   Keys, Keys/Hex, Keys/Stoull   the layout of keys: src/store/StoreBase.cc (EncodePrimaryKey is
--     encode_primary_key, EncodeSecondaryKey encode_secondary_key, and so on)
--   Engine, Engine/*   leveldb or rocksdb and protobuf, which are parameters with laws: an ordered
--     map whose writes may fail, and messages that are parsed as they were serialized
--   Messages, Tables/Records, Tables/Mail, Services/Requests   the messages of proto/*.proto
--   Table, Table/Scans   include/store/StoreTable.hpp: AddRecord is add_record, GetOne get_one,
--     DelRecord del_record, GetMany get_many, GetKeysFromIndex get_keys_from_index, ScanTable
--     scan_table; the other files of Table/ are proofs
--   Tables/Unique, Tables/Indexes   the twelve tables of src/store and their GetKey; the other
--     files of Tables/ but Records and Mail are proofs
--   Server   include/utils/SharedTable.hpp: the state that the parts share, as one record
--   Trans, Trans/ReadLog   src/store/StoreTrans.cc: Commit is commit, ReadLog read_log, ReadOne
--     read_one; the other files of Trans/ are proofs
--   Cache   src/store/StoreCache.cc
--   Election   src/hrpc/RemoteKeeper.cc: MasterUpdate is master_update
--   Sync   src/hrpc/SyncServer.cc: SyncFirst is sync_first, SyncFromMaster sync_from_master
--   Endpoint   include/hrpc/HrpcRemoteEndpointService.hpp
--   Services/*   the actions of src/store: Validate, ThreePid, Lookup, Access (AccessKeyService,
--     BlobDataService, PubKeyService), Invite, MailSms; Services/Sessions,
--     Services/Validated and Services/Decimal are proofs; Services/Common and Services/Numbers hold
--     what they share
--   Startup, Startup/*   src/store/StoreLevel.cc (Initialize is initialize) and src/main/WorkServer.cc
--     (init is init); the files of Startup/ are proofs
--   Hrpc   include/hrpc/ProtoServiceBase.hpp and src/hrpc/HrpcClient.cc: SendToMaster is
--     send_to_master, SendToRemote send_to_remote
--   Hrpc/Master   include/hrpc/HrpcMasterEndpointService.hpp, with its messages in Hrpc/Messages;
--     Hrpc/Forward is the call as a whole, Hrpc/Served lists the services with their actions
--   Query, Query/*   the endpoints of include/query/*Service.hpp: Sessions (ValidateService,
--     ThreePidService), Lookups (LookupService, ParamLookupService), Blobs, Keys (PubKeyService),
--     Others (InviteService, MailSmsService, InfoService, NotFoundService). POST validate/.../submitToken
--     is submit_token_post, and so on. Query/Forwarded and the files below Query/Form,
--     Query/Lookups and Query/Sessions are proofs
--   Query/Form   src/query/ProtoForm.cc: urldecode, urlencode
--   Json   src/query/ProtoJsonSigned.cc; Signed   src/query/SignedJson.cc (AddSign is add_sign and
--     add_sign_text, VerifySign verify_sign), src/crypto/Ed25519.cc, include/crypto/CryptoTraits.hpp;
--     Json/Added, Signed/* are proofs
--   Bin2Ascii/*   include/query/bin2ascii.h
--   Exception   the exceptions, as values: a call that may throw returns a Result
--   Tests/*   an engine in memory and runs of the theorems on concrete data
--
-- How it is modelled. The default build: the log and the data in one database, no base 80 keys, no
-- IDENTT_STORE_ADD_ISD. A byte string is a list of numbers, a uint64 or uint32 a number with its wrap
-- written out, an int32 its bit pattern. An in-out argument comes back beside the result. An action is
-- a function from the state to a Result and the new state, so that what a call has changed before
-- it throws stays changed. A loop that runs until a stop is asked for takes the number of turns
-- before that; every other loop is structural recursion, so that no fuel can run out, except
-- to_string, whose 20 digits hold every uint64. Unordered maps are lists, and no theorem depends on
-- their order. The clock is read once at the start of a request and once in CommitLog.
--
-- What C++ leaves undefined is the exception `undefined`; but what std::isalnum gives of a negative
-- `char` is an argument of urlencode, and isdigit and tolower of one are false and the byte itself,
-- as in glibc. A message of protobuf on the wire is a Wire, its two conversions. The engine has a
-- law for `before`, the entries that lie before an iterator.
--
-- Not modelled: the HTTP server and client, the /help page, the conversions of messages to and from
-- JSON, rapidjson, libsodium and random generators (their results are arguments), the command lines
-- and configuration, threads (a call is a step; each lock of the source covers one call), and the
-- copied libraries. Texts of exceptions leave out data that they quote.
pub mod Prelude
pub mod Exception
pub mod Keys
pub mod Engine
pub mod Messages
pub mod Table
pub mod Tables
pub mod Server
pub mod Trans
pub mod Cache
pub mod Election
pub mod Sync
pub mod Endpoint
pub mod Services
pub mod Bin2Ascii
pub mod Tests
pub mod Hrpc
pub mod Json
pub mod Query
pub mod Signed
pub mod Startup
