-- ===== src/Sdp/Samples.antt =====
-- Concrete sessions for the tests.
use sems_yeti.Prelude.{ℕ, ◌≡◌, ◌==◌, ◌==◌, ==_iff, Bool, true, false, ◌&&◌, List, [], ◌∷◌, arith}
use sems_yeti.Prelude.Int.{pos, negsuc}
use sems_yeti.Prelude.Classes.{Text, codes, text_eq, text_eq_iff}
use sems_yeti.Sdp.{Core, Connection, audio, video, rtpavp, rtpsavp, Payload, Media, Sdp}

abbrev pub same_conn : Connection → Connection → Bool
same_conn a b = a.network == b.network && a.addr_type == b.addr_type && text_eq a.address b.address

pub same_conn_sound : (a b : Connection) → same_conn a b ≡ true → a ≡ b
same_conn_sound a b h = ground (
  arith,
  ==_iff a.network b.network,
  ==_iff a.addr_type b.addr_type,
  text_eq_iff a.address b.address,
)

abbrev pub empty_conn : Connection
empty_conn = record { network = 0; addr_type = 0; address = [] }

abbrev pub conn_a : Connection
conn_a = record { network = 1; addr_type = 1; address = codes "10.0.0.1" }

abbrev pub conn_b : Connection
conn_b = record { network = 1; addr_type = 1; address = codes "10.0.0.2" }

abbrev pub core : Core
core = record {
  dynamic_start = 96;
  dtmf_name = codes "TELEPHONE-EVENT";
  conn_eq = same_conn;
  no_conn = empty_conn;
}

abbrev pub codec : ℕ → Text → Payload
codec n name = record {
  payload_type = pos n;
  encoding_name = name;
  clock_rate = pos 8000;
  encoding_param = negsuc 0;
  format = [];
  sdp_format_parameters = [];
}

abbrev pub pcma : Payload
pcma = codec 8 (codes "PCMA")

abbrev pub pcmu : Payload
pcmu = codec 0 (codes "pcmu")

abbrev pub dtmf : Payload
dtmf = codec 101 (codes "telephone-event")

abbrev pub dtmf_wide : Payload
dtmf_wide = record dtmf { payload_type = pos 102; clock_rate = pos 16000 }

abbrev pub speech : Connection → List Payload → Media
speech c ps = record {
  type = audio;
  transport = rtpavp;
  port = 4000;
  conn = c;
  send = true;
  recv = true;
  payloads = ps;
  attributes = record { attribute = codes "silenceSupp"; value = codes "off" } ∷ [];
  ice_pwd = [];
  ice_ufrag = [];
  ice_candidate = [];
  is_ice = false;
}

abbrev pub film : Media
film = record (speech empty_conn []) { type = video; port = 4002 }

abbrev pub session : Sdp
session = record {
  conn = empty_conn;
  media = speech conn_a (pcma ∷ dtmf ∷ []) ∷ film ∷ [];
  attributes = record { attribute = codes "Tool"; value = codes "x" } ∷ [];
  sess_v = 1;
  ice_pwd = [];
  ice_ufrag = [];
  use_ice = false;
}

-- The offer had a film that was left out; the answer has two codecs of its own.
abbrev pub negotiated : List Media
negotiated = speech empty_conn (pcma ∷ pcmu ∷ dtmf ∷ []) ∷ film ∷ []

abbrev pub answer : List Media
answer = record (speech conn_a (pcmu ∷ codec 9 (codes "G722") ∷ [])) { transport = rtpsavp } ∷ []

abbrev pub accepted : List Media
accepted = speech conn_a (pcmu ∷ dtmf ∷ []) ∷ film ∷ []
