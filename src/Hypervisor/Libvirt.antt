-- ===== src/Hypervisor/Libvirt.antt =====
-- mom/HypervisorInterfaces/libvirtInterface.py: guests by way of libvirt. What libvirt, `ps` and the
-- files of KSM answer is a parameter: the record `Lib`. The connections that were opened are counted,
-- and what the domains of a connection answer may differ from one connection to the next.
pub mod Guests
pub mod Keeps
pub mod Connection
pub mod Stats
use mom.Prelude.{
  ℕ, suc, String, Bool, true, false, ◌||◌, Option, none, some, List, [], ◌∷◌, ◌++◌, Result, ok, err,
  Exec, pure, raise, lift, gets, modify, proceed, ◌>>=◌, ◌>>◌, eqb, if◌then◌else◌,
}
use mom.Prelude.Dict.{Dict, lookup, insert, update, values}
use mom.Prelude.Int.{ℤ, pos, negsuc, eqb_ℤ}
use mom.Python.Text.{parse_int}
use mom.Python.Value.{
  Error, hypervisor_error, attribute_error, index_error, key_error, type_error, value_error,
  libvirt_error,
}
use mom.Hypervisor.Json.{Json, null, num, txt, is_null}
use mom.Hypervisor.RpcBase.{any_null}

pub data Change : Type 0 where
  set_memory set_memory_stats_period : ℤ → Change
  set_scheduler_parameters : Dict ℤ → Change
  -- a file of /sys/kernel/mm/ksm that was written
  write : String → ℤ → Change

-- An answer of libvirt: a value, or the code of a libvirtError.
abbrev pub Answer : Type 0 → Type 0
Answer A = Result ℕ A

-- `D` is the type of libvirt's domain objects; the numbers are those of connections.
pub record Lib (D : Type 0) : Type 0 where
  pub system_error : ℕ
  pub invalid_conn : ℕ
  pub no_domain : ℕ
  pub vir_domain_running : ℤ
  -- whether libvirt.open succeeds for the n-th time
  pub opens : ℕ → Bool
  pub list_domains_id : ℕ → Answer (List ℤ)
  pub lookup_by_id : ℕ → ℤ → Answer D
  pub lookup_by_uuid : ℕ → String → Answer D
  pub name : ℕ → D → Answer String
  pub uuid_string : ℕ → D → Answer String
  pub info : ℕ → D → Answer (List ℤ)
  pub memory_stats : ℕ → D → Answer (Dict ℤ)
  pub set_memory_of : ℕ → D → ℤ → Answer ℤ
  pub set_period_of : ℕ → D → ℤ → Answer ℤ
  -- the texts of the elements memtune/min_guarantee in the domain's XML
  pub min_guarantees : ℕ → D → Answer (List String)
  -- the text of vcpuLimit in the domain's metadata; `none` is empty metadata
  pub vcpu_limit : ℕ → D → Answer (Option (Result Error String))
  pub scheduler_parameters : ℕ → D → Answer (Dict Json)
  pub vcpus_flags : ℕ → D → Answer ℤ
  -- the numbers of the lines of `ps axww` that name a uuid
  pub matches : String → List String
  pub writable : String → Bool
  pub agent_command : ℕ → D → String → Result Error Json

-- `self.conn`, how often a connection was tried, and what was changed
pub record Iface : Type 0 where
  pub conn : Option ℕ
  pub tries : ℕ
  pub changes : List Change

abbrev pub T : Type 0 → Type 0
T A = Exec Iface Error A

abbrev pub or_attribute_error : {A : Type 0} → Option A → Result Error A
or_attribute_error none = err attribute_error
or_attribute_error (some a) = ok a

-- a call of libvirt whose error nothing catches
abbrev pub answer : {A : Type 0} → Answer A → Result Error A
answer (ok a) = ok a
answer (err code) = err (libvirt_error code)

unfoldable pub log_change : Change → T (Unit {0})
log_change c = modify (λ s. record s { changes = s.changes ++ c ∷ [] })

abbrev pub mem_stats : Dict String
mem_stats =
    ("available", "mem_available")
    ∷ ("unused", "mem_unused")
    ∷ ("major_fault", "major_fault")
    ∷ ("minor_fault", "minor_fault")
    ∷ ("swap_in", "swap_in")
    ∷ ("swap_out", "swap_out")
    ∷ []

unfoldable pub get_stats_fields : List String
get_stats_fields = values mem_stats

module _ {D : Type 0} (lib : Lib D) where
  -- `_connect`: a connection that cannot be opened leaves the old one
  unfoldable pub connect : T (Unit {0})
  connect s =
      let opened = record s { conn = some s.tries; tries = suc s.tries } in
      let failed = record s { tries = suc s.tries } in
      (ok tt, (if lib.opens s.tries then opened else failed))

  -- the number of the connection; None has no methods
  unfoldable pub connection : T ℕ
  connection s = (or_attribute_error s.conn, s)

  -- `_reconnect`
  unfoldable pub reconnect : T (Unit {0})
  unfolding connect connection
  reconnect = do n ← connection; connect

  unfoldable pub handle_exception : ℕ → T (Unit {0})
  unfolding reconnect
  handle_exception code =
      if eqb code lib.system_error || eqb code lib.invalid_conn then reconnect else pure tt

  -- try: ...; except libvirt.libvirtError as e: self._handleException(e); return None
  unfoldable pub guarded : {A : Type 0} → Answer A → T (Option A)
  unfolding handle_exception
  guarded (ok a) = pure (some a)
  guarded (err code) = do handle_exception code; pure none

  -- a method of a domain, which may be None
  unfoldable pub on_domain : {A : Type 0} → (ℕ → D → Answer A) → Option D → T (Option A)
  unfolding guarded connection
  on_domain method domain = do
    d ← lift (or_attribute_error domain)
    n ← connection
    guarded (method n d)

  unfoldable pub get_domain_from_id : ℤ → T (Option D)
  unfolding guarded connection
  get_domain_from_id id = do n ← connection; guarded (lib.lookup_by_id n id)

  unfoldable pub get_domain_from_uuid : String → T (Option D)
  unfolding guarded connection
  get_domain_from_uuid uuid = do n ← connection; guarded (lib.lookup_by_uuid n uuid)

  abbrev or_nothing : {A : Type 0} → List A → Option (List A) → List A
  or_nothing default none = default
  or_nothing default (some xs) = xs

  unfoldable pub get_vm_list : T (List ℤ)
  unfolding guarded connection
  get_vm_list = do n ← connection; ids ← guarded (lib.list_domains_id n); pure (or_nothing [] ids)

  abbrev runs : Option (List ℤ) → Result Error Bool
  runs none = ok false
  runs (some []) = err index_error
  runs (some (state ∷ rest)) = ok (eqb_ℤ state lib.vir_domain_running)

  unfoldable pub domain_is_running : Option D → T Bool
  unfolding on_domain
  domain_is_running domain = do info ← on_domain lib.info domain; lift (runs info)

  abbrev pid_of : List String → Result Error Json
  pid_of [] = ok null
  pid_of (m ∷ []) = elim (parse_int m) [ some n ↦ ok (num n) | none ↦ err value_error ]
  pid_of (m ∷ m' ∷ ms) = ok null

  -- without a uuid the pattern cannot be made
  unfoldable pub domain_get_pid : Option String → Result Error Json
  domain_get_pid none = err type_error
  domain_get_pid (some uuid) = pid_of (lib.matches uuid)

  abbrev text_or_null : Option String → Json
  text_or_null none = null
  text_or_null (some s) = txt s

  -- `none` is None
  unfoldable pub get_vm_info : ℤ → T (Option (Dict Json))
  unfolding get_domain_from_id on_domain domain_get_pid any_null
  get_vm_info id = do
    domain ← get_domain_from_id id
    uuid ← on_domain lib.uuid_string domain
    name ← on_domain lib.name domain
    pid ← lift (domain_get_pid uuid)
    let found = ("uuid", text_or_null uuid) ∷ ("name", text_or_null name) ∷ ("pid", pid) ∷ []
    pure (if any_null found then none else some found)

  -- an AttributeError is passed over
  unfoldable pub start_vm_memory_stats : ℤ → String → T (Unit {0})
  unfolding get_domain_from_uuid on_domain log_change
  start_vm_memory_stats interval uuid = do
    domain ← get_domain_from_uuid uuid
    elim domain [
      | none ↦ pure tt
      | some d ↦ do
        log_change (set_memory_stats_period interval)
        on_domain (λ n d. lib.set_period_of n d interval) (some d)
        pure tt
    ]
