-- ===== src/Hypervisor/Libvirt/Keeps.antt =====
-- What keeps the connection of mom/HypervisorInterfaces/libvirtInterface.py the last one that opened.
use mom.Prelude.{
  ℕ, zero, suc, ◌≡◌, refl, String, Bool, true, false, Option, none, some, Result, ok, err, pure,
  lift, proceed, ◌>>=◌, if◌then◌else◌,
}
use mom.Prelude.Int.{ℤ}
use mom.Hypervisor.Libvirt.{
  Lib, Iface, Change, T, Answer, log_change, connect, connection, reconnect, handle_exception,
  guarded, on_domain, get_domain_from_id, get_domain_from_uuid,
}

module _ {D : Type 0} (lib : Lib D) where
  -- The last of the first tries that succeeded, if one did.
  abbrev pub last_opened : ℕ → Option ℕ
  last_opened zero = none
  last_opened (suc n) = if lib.opens n then some n else last_opened n

  -- The connection that is used is that of the last try that succeeded; there is none only if no try
  -- did.
  abbrev pub Opened : Iface → Type 0
  Opened s = s.conn ≡ last_opened s.tries

  -- An action after which this still holds.
  unfoldable pub Keeps : {A : Type 0} → T A → Type 0
  Keeps m = (s : Iface) → Opened s → Opened (m s).1

  pub Keeps-bind :
      {A B : Type 0} (m : T A) (f : A → T B) → Keeps m → ((a : A) → Keeps (f a)) → Keeps (m >>= f)
  unfolding Keeps ◌>>=◌
  Keeps-bind m f hm hf s h = go (m s).0 (m s).1 (hm s h)
    where
      go : (r : Result _ _) (s' : Iface) → Opened s' → Opened (proceed r f s').1
      go (ok a) s' h = hf a s' h
      go (err e) s' h = h

  pub Keeps-pure : {A : Type 0} (a : A) → Keeps (pure a)
  unfolding Keeps ◌>>=◌
  Keeps-pure a s h = h

  pub Keeps-lift : {A : Type 0} (r : Result _ A) → Keeps (lift r)
  unfolding Keeps ◌>>=◌
  Keeps-lift r s h = h

  pub Keeps-log : (c : Change) → Keeps (log_change c)
  unfolding Keeps ◌>>=◌ log_change
  Keeps-log c s h = h

  pub Keeps-connection : Keeps (connection lib)
  unfolding Keeps connection
  Keeps-connection s h = h

  connected :
      (b : Bool) (s : Iface)
      → lib.opens s.tries ≡ b
      → Opened s
      → Opened (
          if b
          then record s { conn = some s.tries; tries = suc s.tries }
          else record s { tries = suc s.tries })
  connected true s e h = rw e refl
  connected false s e h = rw e h

  pub Keeps-connect : Keeps (connect lib)
  unfolding Keeps connect
  Keeps-connect s h = connected (lib.opens s.tries) s refl h

  pub Keeps-handle : (code : ℕ) → Keeps (handle_exception lib code)
  unfolding handle_exception reconnect
  Keeps-handle code = go _
    where
      go : (b : Bool) → Keeps (if b then connection lib >>= (λ n. connect lib) else pure tt)
      go true = Keeps-bind _ _ Keeps-connection λ n. Keeps-connect
      go false = Keeps-pure tt

  pub Keeps-guarded : {A : Type 0} (a : Answer A) → Keeps (guarded lib a)
  unfolding guarded
  Keeps-guarded (ok a) = Keeps-pure (some a)
  Keeps-guarded (err code) = Keeps-bind _ _ (Keeps-handle code) λ u. Keeps-pure none

  pub Keeps-on_domain :
      {A : Type 0} (method : ℕ → D → Answer A) (domain : Option D)
      → Keeps (on_domain lib method domain)
  unfolding on_domain
  Keeps-on_domain method domain =
      Keeps-bind _ _ (Keeps-lift _) λ d. Keeps-bind _ _ Keeps-connection λ n. Keeps-guarded _

  pub Keeps-from_uuid : (uuid : String) → Keeps (get_domain_from_uuid lib uuid)
  unfolding get_domain_from_uuid
  Keeps-from_uuid uuid = Keeps-bind _ _ Keeps-connection λ n. Keeps-guarded _

  pub Keeps-from_id : (id : ℤ) → Keeps (get_domain_from_id lib id)
  unfolding get_domain_from_id
  Keeps-from_id id = Keeps-bind _ _ Keeps-connection λ n. Keeps-guarded _

  pub Keeps-option :
      {A : Type 0} (o : Option D) (m : T A) (f : D → T A)
      → Keeps m
      → ((d : D) → Keeps (f d))
      → Keeps (elim o [ none ↦ m | some d ↦ f d ])
  Keeps-option none m f hm hf = hm
  Keeps-option (some d) m f hm hf = hf d
