-- ===== src/Stream/Tools.antt =====
-- The tool calls of a stream: which there are, and what their results may be.
use cc_tunnel.Common.{
  ◌≡◌, refl, ◌≤◌, ℕ, List, [], ◌∷◌, ◌++◌, map, Text, none, some, arith, if◌then◌else◌, is_empty,
  All-append, Bool-cases, inl, inr, not, ◌&&◌, sym, ◌∙◌,
}
use mathlib.Core.List.{append-nil, append_assoc, map-append}
use cc_tunnel.Stream.{
  Content, BlockType, ContentBlock, BlockStart, DeltaType, Delta, InnerEvent, SystemType,
  StreamEvent, Aggregator,
}
use cc_tunnel.Stream.Aggregate.{
  is_tool_use, content_text, attach_tool_result, on_assistant_block, on_assistant, on_user_block,
  on_user, on_system, on_block_start, on_delta, handle_stream_event, handle, handle_all,
}
use cc_tunnel.Stream.Results.{
  ShortResults, key, set_result-Short, add_input-Short, map-key-set_result, map-key-add_input,
  length-truncated,
}

-- The tool calls that a stream announces: starts of tool_use blocks with a name.
abbrev pub keys_of_start : BlockStart → List (Text × Text)
keys_of_start s = if is_tool_use s.type && not (is_empty s.name) then (s.id, s.name) ∷ [] else []

abbrev pub keys_of_stream : List StreamEvent → List (Text × Text)
keys_of_stream [] = []
keys_of_stream (StreamEvent.stream_event (some (InnerEvent.content_block_start (some s))) ∷ es) =
    keys_of_start s ++ keys_of_stream es
keys_of_stream (_ ∷ es) = keys_of_stream es

-- State `b` has the calls of `a` and then calls with keys `ks`, and short results if `a` has.
pub record Calls (a : Aggregator) (ks : List (Text × Text)) (b : Aggregator) : Type 0 where
  pub keys : map key b.tool_calls ≡ map key a.tool_calls ++ ks
  pub short : ShortResults a.tool_calls → ShortResults b.tool_calls

Calls-same : (a b : Aggregator) → b.tool_calls ≡ a.tool_calls → Calls a [] b
Calls-same a b e = record {
  keys = rw e (sym (append-nil (map key a.tool_calls)));
  short = λ s. rw e s;
}

Calls-trans :
    (a b c : Aggregator) (ks js : List (Text × Text))
    → Calls a ks b
    → Calls b js c
    → Calls a (ks ++ js) c
Calls-trans a b c ks js f g = record {
  keys = g.keys ∙ rw f.keys (append_assoc (map key a.tool_calls) ks js);
  short = λ s. g.short (f.short s);
}

attach-Calls :
    (i : Text) (content : Content) (max_len : ℕ) (a : Aggregator)
    → max_len ≤ 2000
    → Calls a [] (attach_tool_result i content max_len a)
unfolding attach_tool_result
attach-Calls i content max_len a h = record {
  keys = map-key-set_result i _ a.tool_calls ∙ sym (append-nil _);
  short = λ s.
      set_result-Short i _ a.tool_calls
        (omega (arith, length-truncated max_len (content_text content))) s;
}

on_assistant_block-Calls :
    (ty : BlockType) (b : ContentBlock) (a : Aggregator) → Calls a [] (on_assistant_block ty b a)
unfolding on_assistant_block
on_assistant_block-Calls BlockType.tool_result b a =
    attach-Calls b.tool_use_id b.content 1000 a (omega arith)
on_assistant_block-Calls BlockType.other b a = Calls-same a a refl
on_assistant_block-Calls _ b a = Calls-same a _ (ground arith)

on_assistant-Calls : (bs : List ContentBlock) (a : Aggregator) → Calls a [] (on_assistant bs a)
unfolding on_assistant
on_assistant-Calls [] a = Calls-same a a refl
on_assistant-Calls (b ∷ bs) a =
    Calls-trans a (on_assistant_block b.type b a) _ [] [] (on_assistant_block-Calls b.type b a)
      (on_assistant-Calls bs (on_assistant_block b.type b a))

on_user_block-Calls :
    (ty : BlockType) (b : ContentBlock) (a : Aggregator) → Calls a [] (on_user_block ty b a)
unfolding on_user_block
on_user_block-Calls BlockType.tool_result b a =
    attach-Calls b.tool_use_id b.content 2000 a (omega arith)
on_user_block-Calls _ b a = Calls-same a a refl

on_user-Calls : (bs : List ContentBlock) (a : Aggregator) → Calls a [] (on_user bs a)
unfolding on_user
on_user-Calls [] a = Calls-same a a refl
on_user-Calls (b ∷ bs) a =
    Calls-trans a (on_user_block b.type b a) _ [] [] (on_user_block-Calls b.type b a)
      (on_user-Calls bs (on_user_block b.type b a))

on_block_start-Calls :
    (s : BlockStart) (a : Aggregator) → Calls a (keys_of_start s) (on_block_start s a)
unfolding on_block_start
on_block_start-Calls s a = elim (Bool-cases (is_tool_use s.type && not (is_empty s.name))) [
  | inl e ↦ rw e (record {
    keys = map-append key a.tool_calls _;
    short = λ h. All-append _ a.tool_calls _ h (tt, tt);
  })
  | inr e ↦ rw e (Calls-same a a refl)
]

on_delta-Calls : (ty : DeltaType) (d : Delta) (a : Aggregator) → Calls a [] (on_delta ty d a)
unfolding on_delta
on_delta-Calls DeltaType.thinking_delta d a = Calls-same a _ (ground arith)
on_delta-Calls DeltaType.other d a = Calls-same a a refl
on_delta-Calls DeltaType.input_json_delta d a = elim (Bool-cases (is_empty d.partial_json)) [
  | inl e ↦ rw e (Calls-same a a refl)
  | inr e ↦ rw e (record {
    keys = map-key-add_input d.partial_json a.tool_calls ∙ sym (append-nil _);
    short = add_input-Short d.partial_json a.tool_calls;
  })
]

handle-Calls : (e : StreamEvent) (a : Aggregator) → Calls a (keys_of_stream (e ∷ [])) (handle a e)
unfolding handle handle_stream_event
handle-Calls (StreamEvent.assistant none) a = Calls-same a a refl
handle-Calls (StreamEvent.assistant (some bs)) a = on_assistant-Calls bs a
handle-Calls (StreamEvent.user none) a = Calls-same a a refl
handle-Calls (StreamEvent.user (some bs)) a = on_user-Calls bs a
handle-Calls (StreamEvent.system model h) a = Calls-same a _ (on_system_calls h.subtype)
  where
    on_system_calls : (ty : SystemType) → (on_system ty model h a).tool_calls ≡ a.tool_calls
    on_system_calls SystemType.init = unfold on_system in ground arith
    on_system_calls SystemType.other = unfold on_system in refl
    on_system_calls _ = unfold on_system in refl
handle-Calls (StreamEvent.stream_event none) a = Calls-same a a refl
handle-Calls (StreamEvent.stream_event (some (InnerEvent.content_block_start none))) a =
    Calls-same a a refl
handle-Calls (StreamEvent.stream_event (some (InnerEvent.content_block_start (some s)))) a =
    rw (append-nil (keys_of_start s)) (on_block_start-Calls s a)
handle-Calls (StreamEvent.stream_event (some (InnerEvent.content_block_delta none))) a =
    Calls-same a a refl
handle-Calls (StreamEvent.stream_event (some (InnerEvent.content_block_delta (some d)))) a =
    on_delta-Calls d.type d a
handle-Calls (StreamEvent.stream_event (some InnerEvent.other)) a = Calls-same a a refl
handle-Calls (StreamEvent.result session cost duration) a = Calls-same a _ refl
handle-Calls StreamEvent.other a = Calls-same a a refl

keys_of_stream-cons :
    (e : StreamEvent) (es : List StreamEvent)
    → keys_of_stream (e ∷ es) ≡ keys_of_stream (e ∷ []) ++ keys_of_stream es
keys_of_stream-cons (StreamEvent.stream_event (some (InnerEvent.content_block_start (some s)))) es =
    rw (append-nil (keys_of_start s)) refl
keys_of_stream-cons _ es = refl

stream-Calls :
    (es : List StreamEvent) (a : Aggregator) → Calls a (keys_of_stream es) (handle_all a es)
unfolding handle_all
stream-Calls [] a = Calls-same a a refl
stream-Calls (e ∷ es) a =
    rw (keys_of_stream-cons e es)
      (Calls-trans a (handle a e) _ _ _ (handle-Calls e a) (stream-Calls es (handle a e)))

-- Handling a stream from a state of which no result is longer than 2014 bytes (2000 and the mark
-- of a cut text) keeps the ids and names of its tool calls, in order, adds one call for each
-- started tool_use block of the stream with a name, and no other, and leaves no longer result.
pub Calls-handle_all :
    (es : List StreamEvent) (a : Aggregator)
    → ShortResults a.tool_calls
    → (map key (handle_all a es).tool_calls ≡ map key a.tool_calls ++ keys_of_stream es)
      × ShortResults (handle_all a es).tool_calls
Calls-handle_all es a h = ((stream-Calls es a).keys, (stream-Calls es a).short h)
