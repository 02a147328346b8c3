-- ===== src/Samples/Hypervisors.antt =====
-- The theorems on the hypervisor interfaces at concrete answers.
use mathlib.Core.Path.{subst}
use mom.Prelude.{
  ℕ, zero, suc, Bool, ◌≡◌, refl, true, false, inl, inr, Bool-cases, none, some, List, [], ◌∷◌,
  Result, ok, err, String, ◌==◌, eq_iff, contains, arith, if◌then◌else◌, ◌>>=◌,
}
use mom.Prelude.Dict.{Dict, lookup}
use mom.Prelude.Int.{ℤ, pos, ◌+ℤ◌}
use mom.Python.Text.{parse_int}
use mom.Python.Value.{vdsm_error, key_error}
use mom.GuestManager.{Guest, create_monitor, follow}
use mom.Hypervisor.Json.{
  Json, Fields, num, txt, arr, obj, nil, cons, stop, entry, dict_of, first, get, item, int_of,
}
use mom.Hypervisor.Memoize.{Call, memoizer}
use mom.Hypervisor.Memoize.Once.{AllReturn, memoizer-AllReturn}
use mom.Hypervisor.Memoize.Freshness.{start, called, Fresh, memoizer-Fresh}
use mom.Hypervisor.RpcBase as RpcBase
use mom.Hypervisor.RpcBase.{Table, balloon_keys, or_null, store_info}
use mom.Hypervisor.RpcBase.Balloon.{as_number, Numbers, get_vm_balloon_info-trimmed}
use mom.Hypervisor.RpcBase.Again.{get_vm_balloon_info-again}
use mom.Hypervisor.Vdsm as Vdsm
use mom.Hypervisor.Vdsm.{stats_of, check_status}
use mom.Hypervisor.Vdsm.Agreement.{stats_agree, balloon_info_agree}
use mom.Hypervisor.Libvirt.{Lib, Iface, mem_stats}
use mom.Hypervisor.Libvirt.Guests as Guests
use mom.Hypervisor.Libvirt.Stats.{source_of, value_of, get_vm_memory_stats-renamed}
use mom.Hypervisor.Libvirt.Connection as Connection
use mom.Hypervisor.Rpc as Rpc
use mom.Hypervisor.Rpc.{status_of}
use mom.Hypervisor.Rpc.JsonRpc as JsonRpc
use mom.Hypervisor.Rpc.XmlRpc as XmlRpc
use mom.Hypervisor.Rpc.Failures.{Gives, texts, failure_untracks, tables_agree}

-- a value read 5 seconds ago, with an expiration of 5 seconds
abbrev first_call : Call ℕ
first_call = record { key = "()"; now = pos 100; outcome = ok 7 }

abbrev second_call : Call ℕ
second_call = record { key = "()"; now = pos 105; outcome = ok 8 }

memoizer-Fresh_example :
    Fresh 5
      (second_call ∷ first_call ∷ [])
      "()"
      (pos 105)
      (memoizer 5 second_call (memoizer 5 first_call []).1).0
memoizer-Fresh_example =
    memoizer-Fresh 5 (first_call ∷ []) (memoizer 5 first_call []).1 second_call
      (called first_call start)

-- the function is asked for other arguments in between
abbrev other_call : Call ℕ
other_call = record { key = "(1,)"; now = pos 97; outcome = ok 9 }

memoizer-AllReturn_example : AllReturn 5 "()" 7 (first_call ∷ other_call ∷ second_call ∷ []) []
unfolding ◌+ℤ◌
memoizer-AllReturn_example =
    memoizer-AllReturn 5 first_call 7 (other_call ∷ second_call ∷ []) [] refl refl
      ((omega arith, omega arith), ((omega arith, omega arith), tt))

abbrev balloon_fields : Fields
balloon_fields = entry "balloon_max" (txt "2048") (entry "balloon_cur" (num (pos 1024)) stop)

abbrev memory_fields : Fields
memory_fields = entry "mem_total" (txt "100") (entry "mem_unused" (txt "10") stop)

abbrev vm_fields : Fields
vm_fields = entry "vmId" (txt "u") (
    entry "status" (txt "Up") (
      entry "memUsage" (txt "50") (
        entry "memoryStats" (obj memory_fields)
          (entry "vcpuCount" (num (pos 2)) (entry "balloonInfo" (obj balloon_fields) stop)))))

abbrev vm : Json
vm = obj vm_fields

abbrev table : Table
table = ("u", vm) ∷ []

abbrev HasInt : String → Type 0
unfolding int_of
HasInt k = (n : ℤ) × (int_of (or_null (lookup k (dict_of balloon_fields))) ≡ ok n)

balloon_fields-Numbers : Numbers ("balloon_max" ∷ "balloon_cur" ∷ []) (dict_of balloon_fields)
unfolding Numbers HasInt int_of parse_int
balloon_fields-Numbers k b h = elim (Bool-cases ("balloon_max" == k)) [
  | inl e ↦ subst HasInt ((eq_iff "balloon_max" k).0 e) (pos 2048, refl)
  | inr e ↦ subst HasInt ((eq_iff "balloon_cur" k).0 (ground (arith, h, e))) (pos 1024, refl)
]

vm-balloon_info : get vm "balloonInfo" (obj stop) ≡ ok (obj balloon_fields)
unfolding get
vm-balloon_info = refl

get_vm_balloon_info-trimmed_example :
    (info : Dict Json) × (RpcBase.get_vm_balloon_info "u" table
      ≡ (ok (some info), store_info "u" vm info table))
    × ((k : String)
        → lookup k info ≡ (
            if contains k balloon_keys
            then as_number (lookup k (dict_of balloon_fields))
            else none))
get_vm_balloon_info-trimmed_example =
    get_vm_balloon_info-trimmed "u" table vm balloon_fields refl vm-balloon_info refl
      balloon_fields-Numbers

get_vm_balloon_info-again_example :
    (info again : Dict Json) × ((RpcBase.get_vm_balloon_info "u" table).0 ≡ ok (some info))
    × ((RpcBase.get_vm_balloon_info "u" (RpcBase.get_vm_balloon_info "u" table).1).0
        ≡ ok (some again))
    × ((j : String) → lookup j again ≡ lookup j info)
get_vm_balloon_info-again_example =
    get_vm_balloon_info-again "u" table vm_fields balloon_fields refl vm-balloon_info refl
      balloon_fields-Numbers "balloon_max" refl refl

-- the answers of VDSM's API for this guest, in its own process
abbrev good : Json
good = obj (entry "code" (num (pos 0)) stop)

abbrev stats_answer : Json
stats_answer = obj (entry "status" good (entry "statsList" (arr (cons vm nil)) stop))

abbrev api : Vdsm.Api
api = record {
  vm_list = ok stats_answer;
  vm_list_of = λ uuid. ok stats_answer;
  vm_stats = λ uuid. ok stats_answer;
  change = λ c. ok stats_answer;
}

stats_of-vm : stats_of api "u" [] ≡ (ok vm, [])
unfolding stats_of check_status item first ◌>>=◌
stats_of-vm = refl

vm-item : item vm "balloonInfo" ≡ ok (obj balloon_fields)
unfolding item
vm-item = refl

stats_agree_example :
    ((Vdsm.get_vm_memory_stats api "u" []).0 ≡ (RpcBase.get_vm_memory_stats "u" table).0)
    × ((Vdsm.get_vm_cpu_tune_info api "u" []).0 ≡ (RpcBase.get_vm_cpu_tune_info "u" table).0)
stats_agree_example = stats_agree api table "u" vm [] stats_of-vm refl

balloon_info_test :
    (Vdsm.get_vm_balloon_info api "u" []).0 ≡ (RpcBase.get_vm_balloon_info "u" table).0
balloon_info_test =
    balloon_info_agree api table "u" vm (obj balloon_fields) [] stats_of-vm refl vm-item

-- remote answers: a bad status, and the same list of guests from two interfaces
abbrev bad_answer : Json
bad_answer = obj (entry "status" (obj (entry "code" (num (pos 99)) stop)) stop)

abbrev json_answer : Json
json_answer = obj (entry "status" good (entry "items" (arr (cons vm nil)) stop))

abbrev remote : Json → Rpc.Api
remote answer = record {
  get_all_vm_stats = ok answer;
  get_all_policies = ok answer;
  get_io_tune_policy = λ uuid. ok answer;
  get_io_tune = λ uuid. ok answer;
  change = λ c. ok answer;
}

bad_answer-status : status_of bad_answer ≡ err vdsm_error
unfolding status_of item
bad_answer-status = refl

abbrev tracked : Dict (Guest ℤ)
tracked = ("u", create_monitor false true []) ∷ []

failure_untracks_example :
    (found : Table) × (ids : List Json) × Gives (remote bad_answer) found
    × (RpcBase.get_vm_list found ≡ (ok ids, found))
    × (lookup "u" (follow false (λ id. none) (λ id. true) (some (texts ids)) tracked).1 ≡ none)
failure_untracks_example =
    failure_untracks false (λ id. none) (λ id. true) (remote bad_answer) tracked "u"
      (inr (bad_answer, refl, bad_answer-status)) (refl, tt)

good-status : (status_of json_answer ≡ ok tt) × (status_of stats_answer ≡ ok tt)
unfolding status_of item
good-status = (refl, refl)

lists :
    (item json_answer "result" ≡ err key_error)
    × (item json_answer "items" ≡ ok (arr (cons vm nil)))
    × (item stats_answer "statsList" ≡ ok (arr (cons vm nil)))
unfolding item
lists = (refl, refl, refl)

tables_agree_example :
    JsonRpc.get_all_vm_stats (remote json_answer) ≡ XmlRpc.get_all_vm_stats (remote stats_answer)
tables_agree_example =
    tables_agree (remote json_answer) (remote stats_answer) json_answer stats_answer (cons vm nil)
      refl refl good-status.0 good-status.1 lists.0 lists.1 lists.2

-- libvirt: the first try opens a connection, whose domains are lost; the second fails, the third is good
abbrev statistics : Dict ℤ
statistics = ("available", pos 2048) ∷ ("rss", pos 9) ∷ ("swap_in", pos 3) ∷ []

abbrev third : ℕ → Bool
third zero = true
third (suc zero) = false
third n = true

abbrev lost : {A : Type 0} → A → ℕ → Result ℕ A
lost a zero = err 38
lost a (suc n) = ok a

abbrev lib : Lib ℕ
lib = record {
  system_error = 38;
  invalid_conn = 6;
  no_domain = 42;
  vir_domain_running = pos 1;
  opens = third;
  list_domains_id = lost (pos 1 ∷ []);
  lookup_by_id = λ n id. lost 1 n;
  lookup_by_uuid = λ n uuid. lost 1 n;
  name = λ n d. ok "guest";
  uuid_string = λ n d. ok "u";
  info = λ n d. ok (pos 1 ∷ pos 2048 ∷ pos 1024 ∷ []);
  memory_stats = λ n d. ok statistics;
  set_memory_of = λ n d target. ok (pos 0);
  set_period_of = λ n d period. ok (pos 0);
  min_guarantees = λ n d. ok [];
  vcpu_limit = λ n d. ok none;
  scheduler_parameters = λ n d. ok [];
  vcpus_flags = λ n d. ok (pos 2);
  matches = λ uuid. "123" ∷ [];
  writable = λ key. true;
  agent_command = λ n d command. ok (txt "{}");
}

abbrev third_connection : Iface
third_connection = record { conn = some 2; tries = 3; changes = [] }

get_vm_memory_stats-renamed_example :
    (ret : Dict ℤ) × (Guests.get_vm_memory_stats lib "u" third_connection
      ≡ (ok ret, third_connection))
    × ((k : String) → lookup k ret ≡ value_of (source_of k mem_stats) statistics)
get_vm_memory_stats-renamed_example =
    get_vm_memory_stats-renamed lib "u" third_connection 2 1 statistics refl refl refl refl
