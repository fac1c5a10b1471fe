-- ===== src/Tests/Devstral.antt =====
-- Calls as a Devstral model writes them (src/common/devstral_call.hpp).
use llama_onprem_server.Prelude.{
  ◌+◌, ◌≡◌, refl, [], ◌++◌, true, none, some, Bytes, codes, length, drop, starts_with,
}
use llama_onprem_server.Devstral.{
  at_start, is_space, skip_space, string_byte, balanced, nesting_byte, scan_byte, scan_loop, opens,
  json_value_end, call_at, devstral_call_end,
}
use llama_onprem_server.Devstral.Balance.{Balances}
use llama_onprem_server.Devstral.Call.{AllSpace, IsCall, name, named, devstral_call_end-IsCall}
use llama_onprem_server.Devstral.Found.{json_value_end-Balances}
use llama_onprem_server.Devstral.Nesting.{IsValue, nil, byte, string, object, array, done, plain}

-- `{"}":[]}`: a bracket in a string does not count.
abbrev value_text : Bytes
value_text = codes "{\"}\":[]}"

value_text-IsValue : IsValue value_text
value_text-IsValue = object (string (plain refl refl done) (byte refl (array nil nil)))

abbrev call_text : Bytes
call_text = codes "[TOOL_CALLS]f[ARGS] {\"}\":[]}"

call_text-IsCall : IsCall call_text
unfolding is_space
call_text-IsCall =
    named [] (codes "f") (codes " ") value_text tt (name refl refl (refl, tt)) (refl, tt)
      value_text-IsValue

devstral_call_end-IsCall_example :
    devstral_call_end (codes "Hm. " ++ (call_text ++ codes " done")) 4 ≡ some 32
devstral_call_end-IsCall_example =
    devstral_call_end-IsCall (codes "Hm. ") (codes " done") call_text-IsCall

-- A call of the older form that is cut off.
cut_off : devstral_call_end (codes "[TOOL_CALLS][{\"a\":1}") 0 ≡ none
unfolding devstral_call_end call_at json_value_end opens scan_loop scan_byte nesting_byte balanced
    string_byte skip_space is_space starts_with
cut_off = refl

abbrev listed : Bytes
listed = codes "x [\"]\"] y"

listed_end : json_value_end listed 1 ≡ some 7
unfolding json_value_end opens scan_loop scan_byte nesting_byte balanced string_byte skip_space
    is_space
listed_end = refl

json_value_end-Balances_example :
    (spaces : Bytes) × (v : Bytes) × (rest : Bytes) × (drop 1 listed ≡ spaces ++ (v ++ rest))
    × (7 ≡ 1 + length spaces + length v)
    × AllSpace spaces
    × (opens v ≡ true)
    × Balances at_start v
json_value_end-Balances_example = json_value_end-Balances listed 1 7 listed_end
