-- ===== src/Samples/Policies.antt =====
-- The theorem on policy changes at a concrete store. The parser of this example takes integer
-- literals, and knows one text without tokens.
use mom.Prelude.{String, ◌≡◌, refl, none, some, List, [], ◌∷◌, Result, ok, err, ◌==◌, if◌then◌else◌}
use mom.Python.Order.{text_lt}
use mom.Python.Text.{parse_int0}
use mom.Python.Value.{Error, policy, parse_error, index_error}
use mom.Policy.Code.{Code}
use mom.Policy.Store.{Store, cat_policies, or_default, set_policy}
use mom.Policy.Store.Laws.{IsAccepted, Changed, set_policy-Changed}
use mom.Samples.Programs.{num}

abbrev literals : String → Result Error (List Code)
literals text =
    if text == "# none"
    then err index_error
    else elim (parse_int0 text) [ none ↦ err (policy parse_error) | some n ↦ ok (num text ∷ []) ]

abbrev store : Store
store = record { policy_strings = ("50_main_", "12") ∷ []; code = num "12" ∷ [] }

store-IsAccepted : IsAccepted literals store.policy_strings
unfolding cat_policies parse_int0
store-IsAccepted = refl

-- a text that does not compile is refused
set_policy-Changed_example :
    let r = set_policy literals none (some "(") store in
    Changed literals (or_default none) (some "(") store r.0 r.1
set_policy-Changed_example = set_policy-Changed literals none (some "(") store store-IsAccepted

-- a text that is only a comment: the exception escapes, and the text is there with the old code
escaped_test : set_policy literals none (some "# none") store ≡ (
  err index_error,
  record { policy_strings = ("50_main_", "# none") ∷ []; code = num "12" ∷ [] },
)
unfolding set_policy cat_policies
escaped_test = refl

-- the policies are joined in the order of their names
cat_test :
    cat_policies (("60_b", "(b)") ∷ ("50_main_", "(m)") ∷ ("10_a", "(a)") ∷ []) ≡ "(a)\n(m)\n(b)"
unfolding cat_policies text_lt
cat_test = refl

empty_test : cat_policies [] ≡ "0"
unfolding cat_policies
empty_test = refl
