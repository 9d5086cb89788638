-- ===== src/Stream/Blocks.antt =====
-- What the aggregator makes of a stream: its blocks and texts against a description of the stream.
use cc_tunnel.Common.{
  ◌≡◌, refl, List, [], ◌∷◌, ◌++◌, Text, none, some, arith, if◌then◌else◌, is_empty, ap, sym,
  Bool-cases, inl, inr, ◌∙◌,
}
use mathlib.Core.List.{append-nil, append_assoc}
use cc_tunnel.Stream.{
  BlockType, ContentBlock, InnerEvent, SystemType, Hook, StreamEvent, Block, Aggregator,
}
use cc_tunnel.Stream.Aggregate.{
  on_assistant_block, on_assistant, on_user_block, on_user, on_system, handle_stream_event, handle,
  handle_all,
}

-- The blocks that one block of an assistant message stands for.
abbrev pub blocks_of_block : BlockType → ContentBlock → List Block
blocks_of_block BlockType.thinking b =
    if is_empty b.thinking then [] else Block.thinking b.thinking ∷ []
blocks_of_block BlockType.text b = if is_empty b.text then [] else Block.text b.text ∷ []
blocks_of_block BlockType.tool_use b = if is_empty b.id then [] else Block.tool_use b.id ∷ []
blocks_of_block _ b = []

abbrev pub blocks_of_message : List ContentBlock → List Block
blocks_of_message [] = []
blocks_of_message (b ∷ bs) = blocks_of_block b.type b ++ blocks_of_message bs

-- Only assistant messages have blocks.
abbrev pub blocks_of_stream : List StreamEvent → List Block
blocks_of_stream [] = []
blocks_of_stream (StreamEvent.assistant (some bs) ∷ es) =
    blocks_of_message bs ++ blocks_of_stream es
blocks_of_stream (_ ∷ es) = blocks_of_stream es

abbrev pub text_of : List Block → Text
text_of [] = []
text_of (Block.text t ∷ bs) = t ++ text_of bs
text_of (_ ∷ bs) = text_of bs

abbrev pub thinking_of : List Block → Text
thinking_of [] = []
thinking_of (Block.thinking t ∷ bs) = t ++ thinking_of bs
thinking_of (_ ∷ bs) = thinking_of bs

-- The aggregator after blocks `bs` more than `a` had.
pub record Adds (a : Aggregator) (bs : List Block) (b : Aggregator) : Type 0 where
  pub blocks : b.content_blocks ≡ a.content_blocks ++ bs
  pub text : b.assistant_content ≡ a.assistant_content ++ text_of bs
  pub thinking : b.thinking_content ≡ a.thinking_content ++ thinking_of bs

Adds-nil :
    (a b : Aggregator)
    → b.content_blocks ≡ a.content_blocks
    → b.assistant_content ≡ a.assistant_content
    → b.thinking_content ≡ a.thinking_content
    → Adds a [] b
Adds-nil a b p q r = record {
  blocks = p ∙ sym (append-nil a.content_blocks);
  text = q ∙ sym (append-nil a.assistant_content);
  thinking = r ∙ sym (append-nil a.thinking_content);
}

text_of-append : (xs ys : List Block) → text_of (xs ++ ys) ≡ text_of xs ++ text_of ys
text_of-append [] ys = refl
text_of-append (Block.text t ∷ xs) ys =
    rw (text_of-append xs ys) (sym (append_assoc t (text_of xs) (text_of ys)))
text_of-append (Block.thinking t ∷ xs) ys = text_of-append xs ys
text_of-append (Block.tool_use t ∷ xs) ys = text_of-append xs ys

thinking_of-append :
    (xs ys : List Block) → thinking_of (xs ++ ys) ≡ thinking_of xs ++ thinking_of ys
thinking_of-append [] ys = refl
thinking_of-append (Block.thinking t ∷ xs) ys =
    rw (thinking_of-append xs ys) (sym (append_assoc t (thinking_of xs) (thinking_of ys)))
thinking_of-append (Block.text t ∷ xs) ys = thinking_of-append xs ys
thinking_of-append (Block.tool_use t ∷ xs) ys = thinking_of-append xs ys

Adds-trans :
    (a b c : Aggregator) (xs ys : List Block) → Adds a xs b → Adds b ys c → Adds a (xs ++ ys) c
Adds-trans a b c xs ys f g = record {
  blocks = g.blocks ∙ rw f.blocks (append_assoc a.content_blocks xs ys);
  text = g.text ∙ rw (f.text, text_of-append xs ys) (append_assoc a.assistant_content _ _);
  thinking =
      g.thinking ∙ rw (f.thinking, thinking_of-append xs ys) (append_assoc a.thinking_content _ _);
}

Adds-on_assistant_block :
    (ty : BlockType) (b : ContentBlock) (a : Aggregator)
    → Adds a (blocks_of_block ty b) (on_assistant_block ty b a)
unfolding on_assistant_block
Adds-on_assistant_block BlockType.tool_use b a = elim (Bool-cases (is_empty b.id)) [
  | inl e ↦ rw e (Adds-nil a a refl refl refl)
  | inr e ↦
      rw e (record { blocks = refl; text = sym (append-nil _); thinking = sym (append-nil _) })
]
Adds-on_assistant_block BlockType.thinking b a = elim (Bool-cases (is_empty b.thinking)) [
  | inl e ↦ rw e (Adds-nil a a refl refl refl)
  | inr e ↦ rw e (record {
    blocks = refl;
    text = sym (append-nil _);
    thinking = ap (◌++◌ a.thinking_content) (sym (append-nil b.thinking));
  })
]
Adds-on_assistant_block BlockType.text b a = elim (Bool-cases (is_empty b.text)) [
  | inl e ↦ rw e (Adds-nil a a refl refl refl)
  | inr e ↦ rw e (record {
    blocks = refl;
    text = ap (◌++◌ a.assistant_content) (sym (append-nil b.text));
    thinking = sym (append-nil _);
  })
]
Adds-on_assistant_block _ b a = Adds-nil a _ refl refl refl

Adds-on_assistant :
    (bs : List ContentBlock) (a : Aggregator) → Adds a (blocks_of_message bs) (on_assistant bs a)
unfolding on_assistant
Adds-on_assistant [] a = Adds-nil a a refl refl refl
Adds-on_assistant (b ∷ bs) a =
    Adds-trans a (on_assistant_block b.type b a) _ _ _ (Adds-on_assistant_block b.type b a)
      (Adds-on_assistant bs (on_assistant_block b.type b a))

-- Two states with the same blocks and texts.
abbrev SameTexts : Aggregator → Aggregator → Type 0
SameTexts a b =
    (b.content_blocks ≡ a.content_blocks)
    × (b.assistant_content ≡ a.assistant_content)
    × (b.thinking_content ≡ a.thinking_content)

on_user-SameTexts : (bs : List ContentBlock) (a : Aggregator) → SameTexts a (on_user bs a)
unfolding on_user
on_user-SameTexts [] a = (refl, refl, refl)
on_user-SameTexts (b ∷ bs) a =
    let (p, q, r) = on_user-SameTexts bs (on_user_block b.type b a) in
    let (p', q', r') = one b.type in (p ∙ p', q ∙ q', r ∙ r')
  where
    one : (ty : BlockType) → SameTexts a (on_user_block ty b a)
    one BlockType.tool_result = (refl, refl, refl)
    one _ = (refl, refl, refl)

on_system-SameTexts :
    (ty : SystemType) (model : Text) (h : Hook) (a : Aggregator)
    → SameTexts a (on_system ty model h a)
unfolding on_system
on_system-SameTexts SystemType.init model h a = ground arith
on_system-SameTexts _ model h a = (refl, refl, refl)

handle_stream_event-SameTexts :
    (e : InnerEvent) (a : Aggregator) → SameTexts a (handle_stream_event e a)
unfolding handle_stream_event
handle_stream_event-SameTexts e a = ground arith

Adds-handle : (e : StreamEvent) (a : Aggregator) → Adds a (blocks_of_stream (e ∷ [])) (handle a e)
unfolding handle
Adds-handle (StreamEvent.assistant (some bs)) a =
    rw (append-nil (blocks_of_message bs)) (Adds-on_assistant bs a)
Adds-handle (StreamEvent.assistant none) a = Adds-nil a a refl refl refl
Adds-handle (StreamEvent.user none) a = Adds-nil a a refl refl refl
Adds-handle (StreamEvent.user (some bs)) a =
    let (p, q, r) = on_user-SameTexts bs a in Adds-nil a _ p q r
Adds-handle (StreamEvent.system model h) a =
    let (p, q, r) = on_system-SameTexts h.subtype model h a in Adds-nil a _ p q r
Adds-handle (StreamEvent.stream_event none) a = Adds-nil a a refl refl refl
Adds-handle (StreamEvent.stream_event (some e)) a =
    let (p, q, r) = handle_stream_event-SameTexts e a in Adds-nil a _ p q r
Adds-handle (StreamEvent.result session cost duration) a = Adds-nil a _ refl refl refl
Adds-handle StreamEvent.other a = Adds-nil a a refl refl refl

blocks_of_stream-cons :
    (e : StreamEvent) (es : List StreamEvent)
    → blocks_of_stream (e ∷ es) ≡ blocks_of_stream (e ∷ []) ++ blocks_of_stream es
blocks_of_stream-cons (StreamEvent.assistant (some bs)) es =
    rw (append-nil (blocks_of_message bs)) refl
blocks_of_stream-cons (StreamEvent.assistant none) es = refl
blocks_of_stream-cons _ es = refl

-- Handling a stream from any state adds to the content blocks the non-empty thinking and text
-- blocks and the tool uses with an id of its assistant messages, in order, and nothing else; the
-- assistant text and the thinking text grow by the concatenation of those same blocks.
pub Adds-handle_all :
    (es : List StreamEvent) (a : Aggregator) → Adds a (blocks_of_stream es) (handle_all a es)
unfolding handle_all
Adds-handle_all [] a = Adds-nil a a refl refl refl
Adds-handle_all (e ∷ es) a =
    rw (blocks_of_stream-cons e es)
      (Adds-trans a (handle a e) _ _ _ (Adds-handle e a) (Adds-handle_all es (handle a e)))
