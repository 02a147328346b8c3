-- ===== src/Collectors/HostMemory.antt =====
-- mom/Collectors/HostMemory.py: memory statistics of the host. What `parse_int` (mom/Collectors/
-- Collector.py) finds in the two files, which it reads with Python's regular expressions, is a
-- parameter: a number, or `none` for None.
pub mod Totals
use mom.Prelude.{
  String, Option, none, some, List, [], ◌∷◌, Result, ok, err, pure, lift, gets, modify, ◌>>=◌, ◌>>◌,
  Exec,
}
use mom.Prelude.Dict.{Dict}
use mom.Prelude.Int.{ℤ, ◌+ℤ◌, ◌-ℤ◌}
use mom.Python.Value.{Error, type_error, Value, int}

pub record Reading : Type 0 where
  pub avail : Option ℤ
  pub anon : Option ℤ
  pub unused : Option ℤ
  pub buffers : Option ℤ
  pub cached : Option ℤ
  pub swap_total : Option ℤ
  pub swap_free : Option ℤ
  pub pswpin : Option ℤ
  pub pswpout : Option ℤ

pub record HostMemory : Type 0 where
  pub swap_in_prev : Option ℤ
  pub swap_in_cur : Option ℤ
  pub swap_out_prev : Option ℤ
  pub swap_out_cur : Option ℤ

unfoldable pub create : HostMemory
create = record {
  swap_in_prev = none;
  swap_in_cur = none;
  swap_out_prev = none;
  swap_out_cur = none;
}

-- x + y and x - y, where None is a TypeError
unfoldable pub plus : Option ℤ → Option ℤ → Result Error (Option ℤ)
plus (some x) (some y) = ok (some (x +ℤ y))
plus _ _ = err type_error

unfoldable pub minus : Option ℤ → Option ℤ → Result Error (Option ℤ)
minus (some x) (some y) = ok (some (x -ℤ y))
minus _ _ = err type_error

-- the first time, the previous value is the current one
abbrev pub or_current : Option ℤ → Option ℤ → Option ℤ
or_current none cur = cur
or_current (some prev) cur = some prev

unfoldable pub advance : Reading → HostMemory → HostMemory
advance r c = record {
  swap_in_prev = or_current c.swap_in_cur r.pswpin;
  swap_in_cur = r.pswpin;
  swap_out_prev = or_current c.swap_out_cur r.pswpout;
  swap_out_cur = r.pswpout;
}

module _ {R : Type 0} where
  -- a number, or None
  abbrev pub number : Option ℤ → Value R
  number none = Value.nothing
  number (some n) = int n

  unfoldable pub collect : Reading → Exec HostMemory Error (Dict (Value R))
  unfolding plus minus advance
  collect r = do
    some_free ← lift (plus r.unused r.buffers)
    free ← lift (plus some_free r.cached)
    modify (advance r)
    c ← gets (λ s. s)
    swap_in ← lift (minus c.swap_in_cur c.swap_in_prev)
    swap_out ← lift (minus c.swap_out_cur c.swap_out_prev)
    swap_usage ← lift (minus r.swap_total r.swap_free)
    pure (
        ("mem_available", number r.avail)
        ∷ ("mem_unused", number r.unused)
        ∷ ("mem_free", number free)
        ∷ ("swap_in", number swap_in)
        ∷ ("swap_out", number swap_out)
        ∷ ("anon_pages", number r.anon)
        ∷ ("swap_total", number r.swap_total)
        ∷ ("swap_usage", number swap_usage)
        ∷ [])

  -- one collection after another
  unfoldable pub collect_all : List Reading → Exec HostMemory Error (List (Dict (Value R)))
  unfolding collect
  collect_all [] = pure []
  collect_all (r ∷ rs) = do row ← collect r; rows ← collect_all rs; pure (row ∷ rows)

abbrev pub fields : List String
fields =
    "mem_available" ∷ "mem_unused" ∷ "mem_free" ∷ "swap_in" ∷ "swap_out" ∷ "anon_pages"
    ∷ "swap_total" ∷ "swap_usage" ∷ []
