-- ===== src/Hypervisor/Libvirt/Stats.antt =====
-- The memory statistics of mom/HypervisorInterfaces/libvirtInterface.py.
use mom.Prelude.{
  ℕ, ◌≡◌, refl, String, Bool, true, false, Option, none, some, [], ◌∷◌, ok, ◌>>=◌, ◌==◌,
  if◌then◌else◌, arith, eq_iff,
}
use mom.Prelude.Dict.{Dict, lookup, lookup-insert}
use mom.Prelude.Int.{ℤ}
use mom.Hypervisor.Libvirt.{
  Lib, Iface, mem_stats, connection, guarded, on_domain, get_domain_from_uuid,
}
use mom.Hypervisor.Libvirt.Guests.{renamed, set_if, get_vm_memory_stats}

-- The name that libvirt has for a field.
abbrev pub source_of : String → Dict String → Option String
source_of k [] = none
source_of k ((key, field) ∷ fields) = if field == k then some key else source_of k fields

abbrev pub value_of : Option String → Dict ℤ → Option ℤ
value_of none info = none
value_of (some key) info = lookup key info

abbrev fresh : Dict String → Bool
fresh [] = true
fresh ((key, field) ∷ fields) = elim (source_of field fields) [
  | none ↦ fresh fields
  | some other ↦ false
]

lookup-set_if :
    (k key : String) (o : Option ℤ) (d : Dict ℤ)
    → lookup k (set_if key o d)
      ≡ (if key == k then elim o [ none ↦ lookup k d | some n ↦ some n ] else lookup k d)
lookup-set_if k key none d = ground arith
lookup-set_if k key (some n) d = lookup-insert k key n d

lookup-renamed :
    (fields : Dict String) (info : Dict ℤ)
    → fresh fields ≡ true
    → (k : String) → lookup k (renamed fields info) ≡ value_of (source_of k fields) info
unfolding renamed
lookup-renamed [] info h k = refl
lookup-renamed ((key, field) ∷ fields) info h k = grind (
  arith,
  eq_iff field k,
  lookup-renamed fields info (ground arith) k,
  lookup-renamed fields info (ground arith) field,
  lookup-set_if k field (lookup key info) (renamed fields info),
)

abbrev pub is_empty : Dict ℤ → Bool
is_empty [] = true
is_empty (entry ∷ info) = false

-- If libvirt finds the domain and its statistics are not empty, then getVmMemoryStats returns, without
-- a change of the connection, the statistics that MOM knows, each under its own name, and no others.
pub get_vm_memory_stats-renamed :
    {D : Type 0} (lib : Lib D) (uuid : String) (s : Iface) (n : ℕ) (d : D) (info : Dict ℤ)
    → s.conn ≡ some n
    → lib.lookup_by_uuid n uuid ≡ ok d
    → lib.memory_stats n d ≡ ok info
    → is_empty info ≡ false
    → (ret : Dict ℤ) × (get_vm_memory_stats lib uuid s ≡ (ok ret, s))
      × ((k : String) → lookup k ret ≡ value_of (source_of k mem_stats) info)
unfolding get_vm_memory_stats get_domain_from_uuid on_domain connection guarded ◌>>=◌
get_vm_memory_stats-renamed lib uuid s n d [] connected found stats full = absurd (ground arith)
get_vm_memory_stats-renamed lib uuid s n d (entry ∷ info) connected found stats full = (
  renamed mem_stats (entry ∷ info),
  rw (connected, found, stats),
  lookup-renamed mem_stats (entry ∷ info) refl,
)
