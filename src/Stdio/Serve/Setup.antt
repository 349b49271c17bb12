-- ===== src/Stdio/Serve/Setup.antt =====
-- What `Serve` makes of its arguments before it reads.
use golang_jsonrpc.Prelude.{
  ℕ, zero, suc, ◌∙◌, ap, sym, ◌≤◌, ◌≡◌, refl, Bool, true, false, ◌&&◌, List, [], ◌∷◌, Option, none,
  some, ℤ, pos, negsuc, arith, if◌then◌else◌,
}
use golang_jsonrpc.Stdio.Serve.{
  Server, Framing, positive_or, ServeOption, option_message_size, option_concurrent_calls,
  apply_option, apply_all, new_server, framing_of, Arguments, Opened, rpc_is_nil, invalid_framing,
  stream_is_nil, opened, open_streams, open_framing, open_server,
}

-- Both limits are set.
pub record IsUsable (s : Server) : Type 0 where
  pub some_slot : 1 ≤ s.max_calls
  pub some_room : 1 ≤ s.max_message_size

positive_or-pos : (n : ℤ) (d : ℕ) → 1 ≤ d → 1 ≤ positive_or n d
positive_or-pos (pos zero) d h = h
positive_or-pos (pos (suc n)) d h = omega arith
positive_or-pos (negsuc n) d h = h

apply_option-IsUsable : (o : ServeOption) (s : Server) → IsUsable s → IsUsable (apply_option o s)
unfolding apply_option
apply_option-IsUsable (option_message_size n) s h = record {
  some_slot = h.some_slot;
  some_room = positive_or-pos n s.max_message_size h.some_room;
}
apply_option-IsUsable (option_concurrent_calls n) s h = record {
  some_slot = positive_or-pos n s.max_calls h.some_slot;
  some_room = h.some_room;
}

apply_all-IsUsable : (os : List ServeOption) (s : Server) → IsUsable s → IsUsable (apply_all os s)
unfolding apply_all
apply_all-IsUsable [] s h = h
apply_all-IsUsable (o ∷ os) s h =
    apply_all-IsUsable os (apply_option o s) (apply_option-IsUsable o s h)

apply_option-framing : (o : ServeOption) (s : Server) → (apply_option o s).framing ≡ s.framing
unfolding apply_option
apply_option-framing (option_message_size n) s = refl
apply_option-framing (option_concurrent_calls n) s = refl

apply_all-framing : (os : List ServeOption) (s : Server) → (apply_all os s).framing ≡ s.framing
unfolding apply_all
apply_all-framing [] s = refl
apply_all-framing (o ∷ os) s = apply_all-framing os (apply_option o s) ∙ apply_option-framing o s

-- The outcome for given arguments.
abbrev pub Fitting : Arguments → Opened → Type 0
Fitting a (opened s) =
    (a.has_rpc ≡ true)
    × (framing_of a.framing_number ≡ some s.framing)
    × (a.has_reader ≡ true)
    × (a.has_writer ≡ true)
    × IsUsable s
Fitting a rpc_is_nil = a.has_rpc ≡ false
Fitting a invalid_framing = framing_of a.framing_number ≡ none
Fitting a stream_is_nil = a.has_reader && a.has_writer ≡ false

Fitting-if :
    (a : Arguments) (b : Bool) (x y : Opened)
    → (b ≡ true → Fitting a x)
    → (b ≡ false → Fitting a y)
    → Fitting a (if b then x else y)
Fitting-if a true x y h k = h refl
Fitting-if a false x y h k = k refl

and_left : (b c : Bool) → b && c ≡ true → b ≡ true
and_left true c h = refl
and_left false c h = h

and_right : (b c : Bool) → b && c ≡ true → c ≡ true
and_right true c h = h
and_right false c h = absurd cc

new-IsUsable : (f : Framing) → IsUsable (new_server f)
new-IsUsable f = record { some_slot = omega arith; some_room = omega arith }

framing-Fitting :
    (a : Arguments) (o : Option Framing)
    → a.has_rpc ≡ true
    → framing_of a.framing_number ≡ o
    → Fitting a (open_framing a o)
unfolding open_framing open_streams
framing-Fitting a none h e = e
framing-Fitting a (some f) h e =
    Fitting-if a (a.has_reader && a.has_writer) (opened (apply_all a.options (new_server f)))
      stream_is_nil
      (λ b. (
        h,
        e ∙ ap some (sym (apply_all-framing a.options (new_server f))),
        and_left a.has_reader a.has_writer b,
        and_right a.has_reader a.has_writer b,
        apply_all-IsUsable a.options (new_server f) (new-IsUsable f),
      ))
      (λ b. b)

-- `Serve` is refused for a dispatcher that is nil, else for an invalid framing, else for a stream
-- that is nil; in every other case it runs with the framing that was asked for, with at least one
-- slot and a positive limit on messages, whatever numbers the options hold.
pub open_server-Fitting : (a : Arguments) → Fitting a (open_server a)
unfolding open_server
open_server-Fitting a =
    Fitting-if a a.has_rpc (open_framing a (framing_of a.framing_number)) rpc_is_nil
      (λ h. framing-Fitting a (framing_of a.framing_number) h refl) (λ h. h)
