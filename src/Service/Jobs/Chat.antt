-- ===== src/Service/Jobs/Chat.antt =====
-- `to_chat_request` of src/worker_service.cpp: the wire's chat messages, with their parts folded into
-- one content and two lists of attachments. Sampling parameters pass through unchanged and are left
-- out.
use mass_worker_llama_cpp.Prelude.{List, [], ◌∷◌, ◌++◌, Option, none, some, Bytes, text}

pub data Role : Type 0 where
  system user assistant tool unspecified : Role

pub data Part : Type 0 where
  text_part : Bytes → Part
  image audio : Bytes → Bytes → Part  -- content, mime type
  unset : Part

pub record WireMessage : Type 0 where
  pub role : Role
  pub content : Bytes
  pub parts : List Part

pub record ChatMessage : Type 0 where
  pub role : Bytes
  pub content : Bytes
  pub images : List (Bytes × Bytes)
  pub audios : List (Bytes × Bytes)

role_to_string : Role → Bytes
role_to_string system = text "system"
role_to_string user = text "user"
role_to_string assistant = text "assistant"
role_to_string tool = text "tool"
role_to_string unspecified = text "user"

-- `if (!content.empty()) content += "\n"; content += text`.
add_line : Bytes → Bytes → Bytes
add_line [] t = t
add_line (c ∷ s) t = (c ∷ s) ++ (text "\n" ++ t)

add_part : Part → ChatMessage → Option ChatMessage
unfolding add_line
add_part (text_part t) m = some (record m { content = add_line m.content t })
add_part (image content mime) m = some (record m { images = m.images ++ ((content, mime) ∷ []) })
add_part (audio content mime) m = some (record m { audios = m.audios ++ ((content, mime) ∷ []) })
add_part unset m = none

unfoldable pub add_parts : List Part → ChatMessage → Option ChatMessage
unfolding add_part
add_parts [] m = some m
add_parts (p ∷ ps) m = elim (add_part p m) [ none ↦ none | some m' ↦ add_parts ps m' ]

unfoldable pub to_message : WireMessage → Option ChatMessage
unfolding role_to_string add_parts
to_message w =
    add_parts w.parts
      (record { role = role_to_string w.role; content = w.content; images = []; audios = [] })

-- `none` is the error "unrecognized content part variant".
unfoldable pub to_chat_request : List WireMessage → Option (List ChatMessage)
unfolding to_message
to_chat_request [] = some []
to_chat_request (w ∷ ws) = elim (to_message w) [
  | none ↦ none
  | some m ↦ elim (to_chat_request ws) [ none ↦ none | some ms ↦ some (m ∷ ms) ]
]
