-- ===== src/Lib.antt =====
-- Yeti is the call routing module of SEMS: it admits calls against shared resources that are counted
-- in Redis, translates disconnect codes by tables of a database, limits rates and carries values in
-- the user part of a SIP URI, it changes the session descriptions that the two legs of a call
-- exchange, and it tries the routes of a call one after the other. These parts are modelled here, each from its C++ source.
--
-- A call's profile names its resources as a text, which `ResList::parse` turns into a list
-- (src/resources/Resource.cpp: Resource). `ResourceControl::get` and `put`
-- (src/resources/ResourceControl.cpp: Control) admit a call and give its resources back by a
-- handler. They ask the Redis connection (src/resources/ResourceRedisConnection.cpp: Redis; the loop
-- that chooses resources is Redis.Select, `get` itself Redis.Get), which runs command sequences
-- (src/resources/ResourceSequences.cpp: Sequences.Invalidate, Sequences.Operations, Sequences.Check
-- and, for the RPC that shows the use, Sequences.GetAll): state machines that post commands and are
-- driven by replies. Disconnect codes are translated by
-- src/CodesTranslator.cpp (Codes), which reads rows with src/db/DbHelpers.cpp (Db). The token bucket of
-- src/RateLimit.cpp is RateLimit, and src/arg_conversion.cpp is ArgConversion. The routes of a call
-- and the CDRs of its attempts are those of src/CallCtx.cpp (CallCtx); the record of an attempt itself is
-- that of src/cdr/Cdr.cpp (Cdr), with `write_cdr` of src/SqlRouter.cpp. Definitions keep the names of
-- the source, in snake case; RES_CTL_OK is `ctl_ok`, `processRedisReply` is `process_reply`.
--
-- The legs that are tried for a caller, one after the other or at once, are those of src/CallLeg.cpp
-- (CallLeg; the replies are handled in CallLeg.Replies): of the virtual functions, onBLegRefused may try
-- one more callee, and the others are effects.
--
-- The caller's leg of src/SBCCallLeg.cpp brings these together (SbcCallLeg). `processResourcesAndSdp` takes
-- the resources of the first profile or fails over (SbcCallLeg.Admission); when a callee refuses,
-- `onBLegRefused` translates the reply, gives the resources back and has `chooseNextProfile` look for a
-- profile whose resources can be taken (SbcCallLeg.Refusal, SbcCallLeg.Hunting), and `onBeforeDestroy` ends
-- the call. Their state is a record of the call context, the container of the resources and the
-- translator, which the functions of CallCtx, Control and Codes change. Both legs of the call share the
-- context and its CDR: the handlers that end a call (SbcCallLeg.Ending, SbcCallLeg.Failing) take what a leg
-- reads of its own, its status, tags and clock, as the record Side, and the shared state as Shared. A
-- sequence of such events on either leg is a list (SbcCallLeg.Causes).
--
-- The session descriptions are those of Sdp, from src/sdp_filter.cpp and src/SDPFilter.cpp. A leg
-- receives an offer with `processSdpOffer` (Sdp.Offer), sends it on with `filterSdpOffer` and takes an
-- answer with `processSdpAnswer` (both Sdp.Relay). These call, in the order of the source, the check of the
-- streams and `filterSdpAnswerMedia` (Sdp.Streams), `filter_arrange_SDP` (Sdp.Arrange), the lists cut down
-- to one codec (Sdp.Codecs), `fix_dynamic_payloads` with the numbers that the leg remembers (Sdp.Mapping),
-- the filters and `normalizeSDP` of src/SDPFilter.cpp (Sdp.Filters, Sdp.Normalize; the table of
-- src/RTPParameters.cpp), `normalize_conn_location` (Sdp.Places), and `normalizeSdpVersion` of
-- src/SBCCallLeg.cpp (Sdp.Process).
-- AmSdp and its parts are of the SEMS core: the records have the fields that this code names. The
-- other children of Sdp hold proofs and tests.
--
-- State is passed explicitly: a handler takes a record and returns the new record and a list of
-- effects, which are the posted commands and the callbacks, in order. A method under a mutex is one
-- step. Whether a request can be posted, the reply that arrives, the reading of a clock and a fresh
-- identifier are arguments. A run is a list of calls and
-- events (Control.System). Maps are association lists (Prelude.Map) with the source's behaviour on
-- present and missing keys.
--
-- Integers: the rate limiter computes on 32-bit patterns with the wrap-around written out, statistics
-- wrap at 2 ^ 32, and the length prefixes of ArgConversion are read as 32-bit patterns, where those from
-- 2 ^ 31 on are negative; so is the length of the text that `username2arg` hands to the reader, which
-- looks no further than that length. `commands_count` and the sums of replies are integers without bound.
-- `ArgConversion.string2arg` takes fuel; every call of itself has less text to read, and it is started
-- with one more than the length of the text. The search of `fix_dynamic_payloads` for a free number has
-- the numbers below the limit of a PayloadMask, and `none` stands for a search that goes past it. The two
-- loops of SbcCallLeg take as fuel the number of profiles from the current one on, of which each round uses
-- up one; `none` stands for a loop that goes on. All other loops are structural.
--
-- Parameters stand for the SEMS core: in Sdp, its constants, `==` of connections and the connection that
-- SdpConnection() makes (Core), PayloadMask (Masks), and bodies with their SDP parts, parse, print,
-- `isHoldRequest` and the number of parts of `explode` (Wire). In CallLeg, the name of the
-- other leg that AmB2BSession has after its clear_other and terminateOtherLeg (Session). Elsewhere
-- `explode`, `str2int`, `str2long`, `char2hex`, `reverse_hex2int`. In SbcCallLeg, what the surroundings
-- answer is an argument: `getNewId` and the check of the resources (Ask), the clock, `int2str` and the time
-- limit of a profile (Outside), the codes of the SDP functions and what `onRoutingReady` does (Processing),
-- and what `connectCalleeRequest` does (Connect).
-- In Sequences.GetAll, `past_end` is what the core makes of a value that a reply lacks.
--
-- Not modelled: the parts of sdp_filter.cpp under WITH_ZRTP, the RPC views of the handlers, hold and re-INVITEs
-- of call legs, the events of the SBC's legs for RADIUS, the database and the registrar, the serialization of
-- CDRs, SQL routing,
-- authentication, registrations, and the event loop of the Redis client, whose events are inputs here.
pub mod Prelude
pub mod Resource
pub mod Sequences
pub mod Redis
pub mod Control
pub mod RateLimit
pub mod Db
pub mod Codes
pub mod ArgConversion
pub mod Cdr
pub mod CallCtx
pub mod CallLeg
pub mod SbcCallLeg
pub mod Sdp
