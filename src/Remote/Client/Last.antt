-- ===== src/Remote/Client/Last.antt =====
-- Which session id Execute gives.
use cc_tunnel.Common.{
  ℕ, ◌≡◌, refl, sym, ap, ◌⊎◌, inl, inr, Bool, true, false, Option, none, some, List, [], ◌∷◌, ◌++◌,
  Text, All, ==_iff,
}
use cc_tunnel.Stream.{StreamEvent}
use cc_tunnel.Remote.Client.{Streamed, session_after_event, scan_events, execute}

abbrev pub is_result : StreamEvent → Bool
is_result (StreamEvent.result session cost duration) = true
is_result _ = false

abbrev pub IsOther : StreamEvent → Type 0
IsOther e = is_result e ≡ false

-- The lines that are decoded.
abbrev pub decoded : List (Option StreamEvent) → List StreamEvent
decoded [] = []
decoded (none ∷ ls) = decoded ls
decoded (some e ∷ ls) = e ∷ decoded ls

-- The events end with a result of that session and other events.
abbrev pub LastResult : List StreamEvent → Text → Type 0
LastResult es sid =
    (earlier : List StreamEvent) × (cost : ℕ) × (duration : ℕ) × (later : List StreamEvent) × (es
      ≡ earlier ++ StreamEvent.result sid cost duration ∷ later)
    × All IsOther later

abbrev pub SessionOf : List StreamEvent → Text → Text → Type 0
SessionOf es default sid = (All IsOther es × (sid ≡ default)) ⊎ LastResult es sid

SessionOf-cons :
    (e : StreamEvent) (es : List StreamEvent) (default sid : Text)
    → SessionOf es (session_after_event e default) sid
    → SessionOf (e ∷ es) default sid
SessionOf-cons e es default sid (inr (earlier, cost, duration, later, same, others)) =
    inr (e ∷ earlier, cost, duration, later, ap (◌∷◌ e) same, others)
SessionOf-cons (StreamEvent.result s cost duration) es default sid (inl (others, same)) =
    inr
      ([], cost, duration, es, ap (λ t. StreamEvent.result t cost duration ∷ es) (sym same), others)
SessionOf-cons (StreamEvent.assistant b) es default sid (inl (others, same)) =
    inl ((refl, others), same)
SessionOf-cons (StreamEvent.user b) es default sid (inl (others, same)) = inl ((refl, others), same)
SessionOf-cons (StreamEvent.system m h) es default sid (inl (others, same)) =
    inl ((refl, others), same)
SessionOf-cons (StreamEvent.stream_event i) es default sid (inl (others, same)) =
    inl ((refl, others), same)
SessionOf-cons StreamEvent.other es default sid (inl (others, same)) = inl ((refl, others), same)

scan_events-SessionOf :
    (ls : List (Option StreamEvent)) (default : Text)
    → ((scan_events ls default).0 ≡ decoded ls)
      × SessionOf (decoded ls) default (scan_events ls default).1
unfolding scan_events
scan_events-SessionOf [] default = (refl, inl (tt, refl))
scan_events-SessionOf (none ∷ ls) default = scan_events-SessionOf ls default
scan_events-SessionOf (some e ∷ ls) default =
    let (same, last) = scan_events-SessionOf ls (session_after_event e default) in
    (ap (◌∷◌ e) same, SessionOf-cons e (decoded ls) default _ last)

-- An agent that answers with the status 200: the callback gets the lines that are decoded, in
-- order; and the session id is that of the last event of type result among them, or empty if there
-- is none.
pub execute-SessionOf :
    (r : Streamed)
    → r.status ≡ 200
    → ((execute (some r)).events ≡ decoded r.lines)
      × SessionOf (decoded r.lines) [] (execute (some r)).session_id
unfolding execute
execute-SessionOf r answered =
    let (same, last) = scan_events-SessionOf r.lines [] in
    rw ((==_iff r.status 200).1 answered) (same, last)
