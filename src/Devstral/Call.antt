-- ===== src/Devstral/Call.antt =====
-- `devstral_call_end` (src/common/devstral_call.hpp) on the calls that the models write.
use mathlib.Core.List.{append_assoc}
use llama_onprem_server.Prelude.{
  ℕ, ◌+◌, true, false, [], ◌∷◌, ◌++◌, some, ltb, ◌==◌, length, length-append, drop-append_length,
  drop-append_both, Bytes, starts_with, starts_with-append, find_text, ◌≡◌, refl, sym, ap, ◌∙◌,
  arith, All,
}
use llama_onprem_server.Devstral.{
  is_space, skip_space, opens, json_value_end, devstral_tool_calls, devstral_tool_args, call_at,
  devstral_call_end,
}
use llama_onprem_server.Devstral.Nesting.{IsValue, object, array, scan_loop-IsValue}

abbrev pub AllSpace : Bytes → Type 0
AllSpace = All (λ c. is_space c ≡ true)

-- A text that a value, or the name of a tool, begins.
abbrev StartsNoSpace : Bytes → Type 0
StartsNoSpace [] = Unit
StartsNoSpace (c ∷ text) = is_space c ≡ false

skip_space-append :
    (i : ℕ) (spaces text : Bytes)
    → AllSpace spaces
    → StartsNoSpace text
    → skip_space i (spaces ++ text) ≡ i + length spaces
unfolding skip_space
skip_space-append i [] [] h s = omega arith
skip_space-append i [] (c ∷ text) h s = rw s (omega arith)
skip_space-append i (c ∷ spaces) text h s =
    rw h.0 (skip_space-append (i + 1) spaces text h.1 s ∙ omega arith)

opens-IsValue : {value : Bytes} (rest : Bytes) → IsValue value → opens (value ++ rest) ≡ true
unfolding opens
opens-IsValue rest (object i) = refl
opens-IsValue rest (array i) = refl

IsValue-StartsNoSpace :
    {value : Bytes} (rest : Bytes) → IsValue value → StartsNoSpace (value ++ rest)
unfolding is_space
IsValue-StartsNoSpace rest (object i) = refl
IsValue-StartsNoSpace rest (array i) = refl

-- Behind any text and spaces, a value is found to its end.
json_value_end-IsValue :
    (pre spaces : Bytes) {value : Bytes} (rest : Bytes)
    → AllSpace spaces
    → IsValue value
    → json_value_end (pre ++ (spaces ++ (value ++ rest))) (length pre)
      ≡ some (length pre + length spaces + length value)
unfolding json_value_end
json_value_end-IsValue pre spaces {value} rest h v =
    rw
      (
        drop-append_length pre (spaces ++ (value ++ rest)),
        skip_space-append (length pre) spaces (value ++ rest) h (IsValue-StartsNoSpace rest v),
        drop-append_both pre spaces (value ++ rest),
        opens-IsValue rest v,
      )
      (scan_loop-IsValue (length pre + length spaces) rest v)

json_value_end-at :
    (text : Bytes) (i : ℕ) (front spaces : Bytes) {value : Bytes} (rest : Bytes)
    → text ≡ front ++ (spaces ++ (value ++ rest))
    → i ≡ length front
    → AllSpace spaces
    → IsValue value
    → json_value_end text i ≡ some (i + length spaces + length value)
json_value_end-at text i front spaces rest e l h v =
    rw (e, l) (json_value_end-IsValue front spaces rest h v)

-- The name of a tool in a call.
pub data IsName : Bytes → Type 0 where
  name :
      {c : ℕ} {text : Bytes}
      → is_space c ≡ false
      → (c == b'{') ≡ false
      → All (λ b. (b == b'[') ≡ false) (c ∷ text)
      → IsName (c ∷ text)

find_text-append :
    (text rest : Bytes)
    → All (λ b. (b == b'[') ≡ false) text
    → find_text devstral_tool_args (text ++ (devstral_tool_args ++ rest)) ≡ some (length text)
unfolding find_text starts_with
find_text-append [] rest h = refl
find_text-append (c ∷ text) rest h =
    rw (h.0, find_text-append text rest h.1) (ap some (omega arith))

-- A call as the models write it, with the name of the tool or, in the older form, without.
pub data IsCall : Bytes → Type 0 where
  bare :
      (spaces value : Bytes)
      → AllSpace spaces
      → IsValue value
      → IsCall (devstral_tool_calls ++ (spaces ++ value))
  named :
      (spaces name spaces' value : Bytes)
      → AllSpace spaces
      → IsName name
      → AllSpace spaces'
      → IsValue value
      → IsCall
          (devstral_tool_calls ++ (spaces ++ (name ++ (devstral_tool_args ++ (spaces' ++ value)))))

length-ne-zero : (text : Bytes) → opens text ≡ true → (length text == 0) ≡ false
unfolding opens
length-ne-zero [] h = cc
length-ne-zero (c ∷ text) h = ground arith

call_at-IsValue :
    (pre : Bytes) {value : Bytes} (rest : Bytes)
    → IsValue value
    → call_at (pre ++ (value ++ rest)) (length pre) ≡ some (length pre + length value)
unfolding call_at
call_at-IsValue pre {value} rest v =
    rw
      (
        drop-append_length pre (value ++ rest),
        length-ne-zero (value ++ rest) (opens-IsValue rest v),
        opens-IsValue rest v,
      )
      (json_value_end-IsValue pre [] rest tt v ∙ ap some (omega arith))

IsName-opens :
    {name : Bytes} (rest : Bytes)
    → IsName name
    → (opens (name ++ rest) ≡ false) × ((length (name ++ rest) == 0) ≡ false)
unfolding opens
IsName-opens rest (name s b h) = (rw (b, h.0), ground arith)

IsName-All : {name : Bytes} → IsName name → All (λ b. (b == b'[') ≡ false) name
IsName-All (name s b h) = h

IsName-StartsNoSpace : {name : Bytes} (rest : Bytes) → IsName name → StartsNoSpace (name ++ rest)
IsName-StartsNoSpace rest (name s b h) = s

call_at-IsName :
    (pre : Bytes) {name : Bytes} (spaces : Bytes) {value : Bytes} (rest : Bytes)
    → IsName name
    → AllSpace spaces
    → IsValue value
    → call_at (pre ++ (name ++ (devstral_tool_args ++ (spaces ++ (value ++ rest))))) (length pre)
      ≡ some (length pre + length name + length devstral_tool_args + length spaces + length value)
unfolding call_at
call_at-IsName pre {name} spaces {value} rest n s v =
    let text = devstral_tool_args ++ (spaces ++ (value ++ rest)) in
    let front = pre ++ (name ++ devstral_tool_args) in
    rw
      (
        drop-append_length pre (name ++ text),
        (IsName-opens text n).1,
        (IsName-opens text n).0,
        call_at,
        find_text-append name (spaces ++ (value ++ rest)) (IsName-All n),
      )
      (json_value_end-at _ _ front spaces rest
        (sym (
          append_assoc pre (name ++ devstral_tool_args) _
          ∙ ap (λ t. pre ++ t) (append_assoc name devstral_tool_args _)))
        (omega (
          arith,
          length-append pre (name ++ devstral_tool_args),
          length-append name devstral_tool_args,
        ))
        s v)

not_past : (before text : Bytes) → ltb (length (before ++ text)) (length before) ≡ false
not_past before text = ground (arith, length-append before text)

-- What `devstral_call_end` hands to `call_at`.
devstral_call_end-call_at :
    (before spaces text : Bytes)
    → AllSpace spaces
    → StartsNoSpace text
    → devstral_call_end (before ++ (devstral_tool_calls ++ (spaces ++ text))) (length before)
      ≡ call_at
          ((before ++ (devstral_tool_calls ++ spaces)) ++ text)
          (length (before ++ (devstral_tool_calls ++ spaces)))
unfolding devstral_call_end
devstral_call_end-call_at before spaces text s t =
    let more = spaces ++ text in
    rw
      (
        not_past before (devstral_tool_calls ++ more),
        drop-append_length before (devstral_tool_calls ++ more),
        starts_with-append devstral_tool_calls more,
        drop-append_both before devstral_tool_calls more,
        skip_space-append (length before + length devstral_tool_calls) spaces text s t,
      )
      (λ i.
        call_at (sym (append_assoc before (devstral_tool_calls ++ spaces) text) i)
          (behind before spaces i))
  where
    behind :
        (before spaces : Bytes)
        → length before + length devstral_tool_calls + length spaces
          ≡ length (before ++ (devstral_tool_calls ++ spaces))
    behind before spaces = omega (arith, length-append before (devstral_tool_calls ++ spaces))

-- From the start of a call, whatever stands before it and behind it, the scanner finds the call's
-- end: for both forms, any nesting in the arguments, any spaces before them, and brackets and quotes
-- inside of strings.
pub devstral_call_end-IsCall :
    (before : Bytes) {call : Bytes} (rest : Bytes)
    → IsCall call
    → devstral_call_end (before ++ (call ++ rest)) (length before)
      ≡ some (length before + length call)
devstral_call_end-IsCall before rest (bare spaces value s v) =
    let pre = before ++ (devstral_tool_calls ++ spaces) in
    rw (append_assoc spaces value rest) (
      devstral_call_end-call_at before spaces (value ++ rest) s (IsValue-StartsNoSpace rest v)
      ∙ call_at-IsValue pre rest v
      ∙ ap some (
          omega (
            arith,
            length-append before (devstral_tool_calls ++ spaces),
            length-append spaces value,
          )))
devstral_call_end-IsCall before rest (named spaces tool spaces' value s n s' v) =
    let pre = before ++ (devstral_tool_calls ++ spaces) in
    let end = spaces' ++ value in
    let text = tool ++ (devstral_tool_args ++ (spaces' ++ (value ++ rest))) in
    rw
      (
        append_assoc spaces (tool ++ (devstral_tool_args ++ end)) rest,
        append_assoc tool (devstral_tool_args ++ end) rest,
        append_assoc spaces' value rest,
      )
      (devstral_call_end-call_at before spaces text s (IsName-StartsNoSpace _ n)
        ∙ call_at-IsName pre spaces' rest n s' v
        ∙ ap some (
            omega (
              arith,
              length-append before (devstral_tool_calls ++ spaces),
              length-append spaces (tool ++ (devstral_tool_args ++ end)),
              length-append tool (devstral_tool_args ++ end),
              length-append spaces' value,
            )))
