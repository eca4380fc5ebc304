-- ===== src/Dblock/Table/Scan.antt =====
-- The linear search of tactyk_dblock__table_find, for any test of an index.
use tactyk.Base.{
  ℕ, zero, suc, ◌+◌, ◌-◌, ◌≤◌, ◌<◌, ◌≡◌, refl, arith, Bool, true, false, none, some, ap, fun_ext,
}
use tactyk.Dblock.Table.{scan, probe}

pub scan_sound :
    (stop : ℕ → Bool) (n i r : ℕ) → scan stop n i ≡ some r → (stop r ≡ true) × (i ≤ r) × (r < i + n)
unfolding scan
scan_sound stop zero i r e = cc
scan_sound stop (suc n) i r e = ground (arith, scan_sound stop n (i + 1) r)

scan_none :
    (stop : ℕ → Bool) (n i : ℕ)
    → scan stop n i ≡ none
    → (j : ℕ) → i ≤ j
    → j < i + n
    → stop j ≡ false
unfolding scan
scan_none stop zero i e j lo hi = absurd (omega arith)
scan_none stop (suc n) i e j lo hi =
    ground (arith, scan_none stop n (i + 1), scan_none stop n (i + 1) (ground arith) j)

-- A test that stops less often, but at the index found, finds the same index.
scan_narrow :
    (stop stop' : ℕ → Bool)
    → ((j : ℕ) → stop j ≡ false → stop' j ≡ false)
    → (n i r : ℕ) → scan stop n i ≡ some r
    → stop' r ≡ true
    → scan stop' n i ≡ some r
unfolding scan
scan_narrow stop stop' h zero i r e t = cc
scan_narrow stop stop' h (suc n) i r e t = ground (arith, h i, scan_narrow stop stop' h n (i + 1) r)

scan_none-narrow :
    (stop stop' : ℕ → Bool)
    → ((j : ℕ) → stop j ≡ false → stop' j ≡ false)
    → (n i : ℕ) → scan stop n i ≡ none
    → scan stop' n i ≡ none
unfolding scan
scan_none-narrow stop stop' h zero i e = refl
scan_none-narrow stop stop' h (suc n) i e =
    ground (arith, h i, scan_none-narrow stop stop' h n (i + 1))

module _ (capacity pref : ℕ) (inside : pref ≤ capacity) where
  pub probe_sound :
      (stop : ℕ → Bool) (r : ℕ)
      → probe stop capacity pref ≡ some r
      → (stop r ≡ true) × (r < capacity)
  unfolding probe
  probe_sound stop r e =
      ground (arith, scan_sound stop (capacity - pref) pref r, scan_sound stop pref 0 r)

  pub probe_none :
      (stop : ℕ → Bool) → probe stop capacity pref ≡ none → (j : ℕ) → j < capacity → stop j ≡ false
  unfolding probe
  probe_none stop e j lt = ground (
    arith,
    scan_none stop (capacity - pref) pref (ground arith) j,
    scan_none stop pref 0 (ground arith) j,
  )

  pub probe_narrow :
      (stop stop' : ℕ → Bool)
      → ((j : ℕ) → stop j ≡ false → stop' j ≡ false)
      → (r : ℕ) → probe stop capacity pref ≡ some r
      → stop' r ≡ true
      → probe stop' capacity pref ≡ some r
  unfolding probe
  probe_narrow stop stop' h r e t = ground (
    arith,
    scan_narrow stop stop' h (capacity - pref) pref r,
    scan_none-narrow stop stop' h (capacity - pref) pref,
    scan_narrow stop stop' h pref 0 r,
  )

  pub probe_ext :
      (stop stop' : ℕ → Bool)
      → ((j : ℕ) → stop j ≡ stop' j)
      → probe stop capacity pref ≡ probe stop' capacity pref
  probe_ext stop stop' h = ap (λ f. probe f capacity pref) (fun_ext h)
