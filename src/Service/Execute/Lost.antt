-- ===== src/Service/Execute/Lost.antt =====
-- The flag for a lost device.
use mathlib.Core.List.{append-nil}
use mass_worker_llama_cpp.Prelude.{
  true, false, [], ◌++◌, Option, none, some, Bytes, text, ◌≡◌, ◌↔◌, subst, ◌⊎◌, inl, inr, arith,
}
use mass_worker_llama_cpp.Service.State.{Service}
use mass_worker_llama_cpp.Service.Errors.{mentions_device_loss}
use mass_worker_llama_cpp.Service.Errors.Mentions.{mentions_device_loss-within}
use mass_worker_llama_cpp.Service.Messages.{
  HubMessage, assign_job, load_model, unload_model, cancel_job, delete_cache_files, set_devices,
  enrolled, not_set, benchmark, model_benchmark, Frame, threw, frame_error_text,
}
use mass_worker_llama_cpp.Service.Execute.{World, execute_impl, rescue, fold, note_loss, execute}
use mass_worker_llama_cpp.Service.Execute.Frames.{is_silent}

-- A frame whose error tells of a lost device.
abbrev pub TellsOfLoss : Option Frame → Type 0
TellsOfLoss none = ⊥
TellsOfLoss (some f) = mentions_device_loss (frame_error_text f) ≡ true

noted :
    (s : Service) (out : Option Frame)
    → ((note_loss out s).device_lost ≡ true) ↔ ((s.device_lost ≡ true) ⊎ TellsOfLoss out)
unfolding note_loss
noted s none = (inl, λ h. elim h [ inl e ↦ e | inr a ↦ absurd a ])
noted s (some f) = (λ h. ground arith, λ h. ground arith)

-- After a message the flag is up exactly if it was up when the handler returned, or the frame that is
-- sent tells of a lost device: it is never lowered, and no such frame slips by.
pub execute-device_lost :
    (w : World) (m : HubMessage) (s : Service)
    → ((execute w m s).0.device_lost ≡ true)
      ↔ (((execute_impl w m s).0.device_lost ≡ true) ⊎ TellsOfLoss (execute w m s).1)
unfolding execute
execute-device_lost w m s = noted _ _

prefixed :
    (pre msg : Bytes) → mentions_device_loss msg ≡ true → mentions_device_loss (pre ++ msg) ≡ true
prefixed pre msg h =
    subst (λ x. mentions_device_loss (pre ++ x) ≡ true) (append-nil msg)
      (mentions_device_loss-within pre msg [] h)

rescued :
    (m : HubMessage) (msg : Bytes)
    → is_silent m ≡ false
    → mentions_device_loss msg ≡ true
    → TellsOfLoss (rescue m msg)
unfolding rescue frame_error_text
rescued (assign_job a b c) msg h e = e
rescued (load_model r) msg h e = e
rescued (unload_model a b) msg h e = e
rescued (benchmark a b) msg h e = e
rescued (model_benchmark r) msg h e = e
rescued (cancel_job a) msg h e = cc
rescued (delete_cache_files a) msg h e = cc
rescued (set_devices a b) msg h e = cc
rescued (enrolled a b) msg h e = cc
rescued not_set msg h e = cc

-- An exception that tells of a lost device raises the flag, whichever message threw it of those
-- that want an answer.
pub execute-device_lost_of_throw :
    (w : World) (m : HubMessage) (s : Service) (msg : Bytes)
    → is_silent m ≡ false
    → (execute_impl w m s).1 ≡ threw msg
    → mentions_device_loss msg ≡ true
    → (execute w m s).0.device_lost ≡ true
execute-device_lost_of_throw w m s msg h e l = (execute-device_lost w m s).1 (inr told)
  where
    told : TellsOfLoss (execute w m s).1
    told =
        unfold execute fold in rw e (rescued m _ h (prefixed (text "unhandled exception: ") msg l))
