-- ===== src/Turn/Resume.antt =====
-- Which session a turn resumes.
use cc_tunnel.Common.{
  ◌≡◌, refl, sym, ap, ◌∙◌, ◌⊎◌, inl, inr, true, false, List, [], ◌∷◌, ◌++◌, Text, is_empty, All,
  All-reverse, Bool-cases,
}
use mathlib.Core.List.{reverse, reverse-append, reverse-reverse, reverse-cons, append_assoc}
use cc_tunnel.Chat.{Message}
use cc_tunnel.Turn.History.{session_id_of, search_back, find_resume_session_id}

abbrev pub offers : Message → Text
offers m = session_id_of m.role m.message_data

-- The message offers no session id.
abbrev pub IsSilent : Message → Type 0
IsSilent m = is_empty (offers m) ≡ true

-- The session id is that of the last message that offers one.
pub record Latest (history : List Message) (sid : Text) : Type 0 where
  pub earlier : List Message
  pub source : Message
  pub later : List Message
  pub splits : history ≡ earlier ++ source ∷ later
  pub silent : All IsSilent later
  pub same : sid ≡ offers source
  pub some_id : is_empty sid ≡ false

Newest : List Message → Text → Type 0
Newest ms sid =
    (newer : List Message) × (m : Message) × (older : List Message) × (ms ≡ newer ++ m ∷ older)
    × All IsSilent newer
    × (sid ≡ offers m)
    × (is_empty sid ≡ false)

search_back-cases :
    (ms : List Message) → ((search_back ms ≡ []) × All IsSilent ms) ⊎ Newest ms (search_back ms)
unfolding search_back Newest
search_back-cases [] = inl (refl, tt)
search_back-cases (m ∷ ms) = elim (Bool-cases (is_empty (offers m))) [
  | inr e ↦ rw e (inr ([], m, ms, refl, tt, refl, e))
  | inl e ↦ rw e (elim (search_back-cases ms) [
    | inl (p, q) ↦ inl (p, (refl, q))
    | inr (newer, x, older, p, q, r, s) ↦ inr (m ∷ newer, x, older, ap (◌∷◌ m) p, (e, q), r, s)
  ])
]

-- A history of which no assistant message has a non-empty string under "session_id" gives the
-- empty session id; any other gives the non-empty id of the last message that has one.
pub find_resume_session_id-Latest :
    (history : List Message)
    → ((find_resume_session_id history ≡ []) × All IsSilent history)
      ⊎ Latest history (find_resume_session_id history)
unfolding find_resume_session_id Newest
find_resume_session_id-Latest history = elim (search_back-cases (reverse history)) [
  | inl (p, q) ↦ inl (p, rw (reverse-reverse history) at (All-reverse IsSilent (reverse history) q))
  | inr (newer, m, older, p, q, r, s) ↦ inr (record {
    earlier = reverse older;
    source = m;
    later = reverse newer;
    splits = sym (reverse-reverse history) ∙ ap reverse p ∙ turned newer m older;
    silent = All-reverse IsSilent newer q;
    same = r;
    some_id = s;
  })
]
  where
    turned :
        (newer : List Message) (m : Message) (older : List Message)
        → reverse (newer ++ m ∷ older) ≡ reverse older ++ m ∷ reverse newer
    turned newer m older =
        rw (reverse-append newer (m ∷ older), reverse-cons m older)
          (append_assoc (reverse older) (m ∷ []) (reverse newer))

-- A session id that the last message offers is the one that is resumed.
pub find_resume_session_id-newest :
    (history : List Message) (m : Message)
    → is_empty (offers m) ≡ false
    → find_resume_session_id (history ++ m ∷ []) ≡ offers m
unfolding find_resume_session_id search_back
find_resume_session_id-newest history m h = rw (reverse-append history (m ∷ []), h) refl
