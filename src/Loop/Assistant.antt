-- ===== src/Loop/Assistant.antt =====
-- The message by which loop.py tells an answer of client/anthropic.py back to the service.
use mathlib.Core.List.{Perm, perm_middle}
use mathlib.Core.List.Perm
use agentanvil.Prelude.{List, [], ◌∷◌, ◌++◌, map}
use agentanvil.Client.Base as Client
use agentanvil.Client.Base.{ToolUse, Block}
use agentanvil.Client.Anthropic.{
  ReplyBlock, Reply, text, tool_use, other, text_blocks, tool_uses, translate,
}
use agentanvil.Loop.State.{assistant_blocks}

-- The blocks of a reply that have a type the SDK knows, as they came.
unfoldable pub known_blocks : List ReplyBlock → List Block
known_blocks [] = []
known_blocks (text s ∷ bs) = Client.text s ∷ known_blocks bs
known_blocks (tool_use id name input ∷ bs) = Client.tool_use id name input ∷ known_blocks bs
known_blocks (other ∷ bs) = known_blocks bs

abbrev call_block : ToolUse → Block
call_block tu = Client.tool_use tu.id tu.name tu.input

blocks-Perm :
    (bs : List ReplyBlock)
    → Perm (map Client.text (text_blocks bs) ++ map call_block (tool_uses bs)) (known_blocks bs)
unfolding text_blocks tool_uses known_blocks
blocks-Perm [] = Perm.refl []
blocks-Perm (text s ∷ bs) = Perm.cons (Client.text s) (blocks-Perm bs)
blocks-Perm (tool_use id name input ∷ bs) =
    Perm.trans (perm_middle (map Client.text (text_blocks bs)) _)
      (Perm.cons (Client.tool_use id name input) (blocks-Perm bs))
blocks-Perm (other ∷ bs) = blocks-Perm bs

-- The message of the assistant that follows a reply of the service has the reply's text and
-- tool-use blocks, each as often as the reply has it, with its text, id, name and input; only their
-- order may differ, since all texts come first.
pub assistant_blocks-translate :
    (reply : Reply) → Perm (assistant_blocks (translate reply)) (known_blocks reply.content)
unfolding assistant_blocks translate
assistant_blocks-translate reply = blocks-Perm reply.content
