-- ===== src/Samples/Engines.antt =====
-- The theorems on the policy engine at a concrete directory and a concrete pass.
use mom.Prelude.{
  true, false, String, ◌≡◌, refl, Option, none, some, List, [], ◌∷◌, Result, ok, err, ◌==◌,
  if◌then◌else◌, ◌>>=◌,
}
use mom.Prelude.Dict.{values}
use mom.Prelude.Int.{ℤ, pos}
use mom.Python.Text
use mom.Python.Text.{parse_int0}
use mom.Python.Arith.{to_int}
use mom.Python.Value.{Error, policy, parse_error, value_error, int, str}
use mom.Entity
use mom.Policy.Code.{Code}
use mom.Policy.Store.{Store, clear_policy, or_zero, cat_policies, set_policy, evaluate}
use mom.Monitor
use mom.Monitor.{Monitor}
use mom.Monitor.Sets.{union}
use mom.GuestManager
use mom.GuestManager.{Guest}
use mom.Controllers.Calls.{Call, balloon_target, emit}
use mom.Controllers.Balloon
use mom.Policy.Builtins.{doc, builtin?, operator_name}
use mom.Policy.Dispatch.{dispatch, check_arity, convert_all, convert}
use mom.Policy.Evaluator.{step, eval_program, initial, call_name, default, call_function}
use mom.Policy.Forms.{apply, let_form, bind_all, eval_all, eval_body, for_each, with_form}
use mom.Policy.Functions.{eval_token, eval_number, binary, variadic}
use mom.Policy.Machine.{
  get_defined, get, set_variable, alloc_variable, enter_scope, leave_scope, define, policy_at,
  call_value,
}
use mom.Entity.Methods.{call}
use mom.PolicyEngine.{Controller, rpc_set_policy, do_controls}
use mom.PolicyEngine.Loading.{replaced, rpc_set_policy-eq}
use mom.PolicyEngine.Passes.{Pass, do_controls-Pass}
use mom.Samples.Fixed.{fixed}
use mom.Samples.Programs.{num, sym, lst, text}

-- a parser that takes integer literals only
abbrev literals : String → Result Error (List Code)
literals text = elim (parse_int0 text) [
  | none ↦ err (policy parse_error)
  | some n ↦ ok (num text ∷ [])
]

abbrev old_store : Store
old_store = record { policy_strings = ("50_main_", "12") ∷ []; code = num "12" ∷ [] }

-- the refused text removes the policy that was there
rpc_set_policy-eq_example :
    rpc_set_policy literals (some "(") old_store ≡ replaced literals "(" (literals (or_zero "("))
rpc_set_policy-eq_example = rpc_set_policy-eq literals "(" old_store

refused_test : (rpc_set_policy literals (some "(") old_store).1 ≡ clear_policy
unfolding rpc_set_policy set_policy cat_policies parse_int0
refused_test = refl

-- the last file is no text
abbrev read : String → Result Error (Option String)
read name =
    if name == "10_a.policy"
    then ok (some "7")
    else if name == "20_b.policy"
    then ok (some "(")
    else if name == "30_c.policy"
    then err value_error
    else ok none

abbrev list_dir : String → Result Error (Option (List String))
list_dir dir =
    ok (some ("30_c.policy" ∷ "20_b.policy" ∷ "notes" ∷ "10_a.policy" ∷ ".x.policy" ∷ []))

abbrev host : Monitor ℤ
host = record {
  properties = ("uuid", str "g1") ∷ ("name", str "g1") ∷ [];
  statistics = (("balloon_cur", int (pos 10)) ∷ []) ∷ [];
  variables = [];
  fields = some ("balloon_cur" ∷ []);
  optional_fields = some [];
  ready = some true;
  terminated = false;
}

abbrev guests : List (String × Guest ℤ)
guests = ("g1", record { monitor = host; thread = none }) ∷ []

abbrev balloon : Controller ℤ
balloon entity entities = Balloon.process entities

-- (with Guests guest (guest.Control "balloon_target" 700))
abbrev rules : Store
rules = record {
  policy_strings = [];
  code =
      lst (
        sym "with"
        ∷ sym "Guests"
        ∷ sym "guest"
        ∷ lst (sym "guest.Control" ∷ text "\"balloon_target\"" ∷ num "700" ∷ [])
        ∷ [])
      ∷ [];
}

abbrev sent : List (Call ℤ)
sent = balloon_target (str "g1") (pos 700) ∷ []

pass_ends : do_controls 4 rules host guests (balloon ∷ []) [] ≡ some (ok tt, sent)
unfolding do_controls evaluate Monitor.interrogate GuestManager.interrogate Balloon.process
    eval_program step initial call_name default call_function dispatch check_arity convert_all
    convert apply let_form bind_all eval_all eval_body for_each with_form eval_token eval_number
    binary variadic get_defined get set_variable alloc_variable enter_scope leave_scope define
    policy_at call_value call doc builtin? operator_name ◌>>=◌ Text.unquote Text.parse_int0
    Text.split Entity.stat Entity.control Entity.prop Entity.get_control to_int emit Entity.finalize
    Entity.set_statistics Entity.create Monitor.valid_fields union
pass_ends = refl

do_controls-Pass_example :
    Pass 4 rules host (values (GuestManager.interrogate guests)) (balloon ∷ []) [] (ok tt) sent
do_controls-Pass_example =
    do_controls-Pass 4 rules host guests (balloon ∷ []) [] sent (ok tt) pass_ends
