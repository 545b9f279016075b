-- ===== src/Sdp/Within.antt =====
-- src/sdp_filter.cpp: the payloads of an answer are among those that were negotiated.
use mathlib.Core.List.{Memᴰ}
use mathlib.Core.Path.{subst}
use sems_yeti.Prelude.{
  sym, ◌≡◌, refl, inl, inr, Bool, true, false, not, ◌||◌, List, [], ◌∷◌, ◌++◌, some, is_nil, arith,
  Bool-cases, Option-cases,
}
use sems_yeti.Sdp.{
  Core, Transport, Media, Payload, payload_matches, find_payload, contains_payload, is_only_event,
  is_telephone_event,
}
use sems_yeti.Sdp.Codecs.{add_codec, add_codecs, answered, unanswered, answer_payloads}

abbrev pub Within : List Payload → List Payload → Type 0
Within [] qs = Unit {0}
Within (p ∷ ps) qs = Memᴰ p qs × Within ps qs

Within-tail :
    (ps : List Payload) (q : Payload) (qs : List Payload) → Within ps qs → Within ps (q ∷ qs)
Within-tail [] q qs w = tt
Within-tail (p ∷ ps) q qs (m, w) = (Memᴰ.tail m, Within-tail ps q qs w)

pub Within-refl : (ps : List Payload) → Within ps ps
Within-refl [] = tt
Within-refl (p ∷ ps) = (Memᴰ.head refl, Within-tail ps p ps (Within-refl ps))

Within-append :
    (ps : List Payload) {p : Payload} {qs : List Payload}
    → Within ps qs
    → Memᴰ p qs
    → Within (ps ++ p ∷ []) qs
Within-append [] w m = (m, tt)
Within-append (x ∷ ps) (k, w) m = (k, Within-append ps w m)

pub Within-mem :
    (ps : List Payload) {p : Payload} (qs : List Payload) → Within ps qs → Memᴰ p ps → Memᴰ p qs
Within-mem [] qs w m = elim m [ ]
Within-mem (x ∷ ps) qs (k, w) (Memᴰ.head e) = subst (λ y. Memᴰ y qs) (sym e) k
Within-mem (x ∷ ps) qs (k, w) (Memᴰ.tail m) = Within-mem ps qs w m

module _ (core : Core) where
  pub find_payload-mem :
      (ps : List Payload) (f : Payload) (t : Transport) (p : Payload)
      → find_payload core ps f t ≡ some p
      → Memᴰ p ps × (payload_matches core f t p ≡ true)
  unfolding find_payload
  find_payload-mem [] f t p h = cc
  find_payload-mem (q ∷ ps) f t p h = elim (Bool-cases (payload_matches core f t q)) [
    | inl found ↦ (Memᴰ.head (ground arith), ground arith)
    | inr other ↦ let (m, ok) = find_payload-mem ps f t p (ground arith) in (Memᴰ.tail m, ok)
  ]

  add_codec-Within :
      (single : Bool) (qs : List Payload) (pl : List Payload) (p : Payload)
      → Within pl qs
      → Memᴰ p qs
      → Within (add_codec core pl p single) qs
  unfolding add_codec
  add_codec-Within single qs pl p w m =
      elim (Bool-cases
        (not single || is_nil pl || is_only_event core pl || is_telephone_event core p)) [
          | inl added ↦ rw added (Within-append pl w m)
          | inr left ↦ rw left w
        ]

  add_codecs-Within :
      (single : Bool) (qs : List Payload) (pl ps : List Payload)
      → Within pl qs
      → Within ps qs
      → Within (add_codecs core single pl ps) qs
  unfolding add_codecs
  add_codecs-Within single qs pl [] w v = w
  add_codecs-Within single qs pl (p ∷ ps) w (m, v) =
      add_codecs-Within single qs (add_codec core pl p single) ps
        (add_codec-Within single qs pl p w m) v

  answered-Within :
      (single : Bool) (other : Media) (pl fs : List Payload)
      → Within pl other.payloads
      → Within (answered core single other pl fs) other.payloads
  unfolding answered
  answered-Within single other pl [] w = w
  answered-Within single other pl (f ∷ fs) w =
      elim (Option-cases (find_payload core other.payloads f other.transport)) [
        | inl gone ↦ rw (gone, answered) (answered-Within single other pl fs w)
        | inr (p, found) ↦
            let m = (find_payload-mem other.payloads f other.transport p found).0 in
            rw (found, answered)
              (answered-Within single other (add_codec core pl p single) fs
                (add_codec-Within single other.payloads pl p w m))
      ]

  unanswered-Within :
      (single : Bool) (media : Media) (qs : List Payload) (pl ps : List Payload)
      → Within pl qs
      → Within ps qs
      → Within (unanswered core single media pl ps) qs
  unfolding unanswered
  unanswered-Within single media qs pl [] w v = w
  unanswered-Within single media qs pl (p ∷ ps) w (m, v) =
      elim (Bool-cases (contains_payload core media.payloads p media.transport)) [
        | inl had ↦ rw had (unanswered-Within single media qs pl ps w v)
        | inr new ↦ rw new (
            unanswered-Within single media qs (add_codec core pl p single) ps
              (add_codec-Within single qs pl p w m) v)
      ]

  pub answer_payloads-Within :
      (avoid single : Bool) (other m : Media)
      → Within (answer_payloads core avoid single other m) other.payloads
  unfolding answer_payloads
  answer_payloads-Within true single other m =
      unanswered-Within single m other.payloads (answered core single other [] m.payloads)
        other.payloads (answered-Within single other [] m.payloads tt) (Within-refl other.payloads)
  answer_payloads-Within false single other m =
      add_codecs-Within single other.payloads [] other.payloads tt (Within-refl other.payloads)
