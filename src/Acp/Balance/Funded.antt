-- ===== src/Acp/Balance/Funded.antt =====
-- What a cache hit means, whatever the order in which concurrent requests take the lock.
use shinzo_host_client.Prelude.{
  ℕ, ◌≡◌, refl, sym, Bool-cases, inl, inr, Bool, true, false, ◌&&◌, some, List, [], ◌∷◌, Eq, ◌==◌,
  nat_eq, ==_iff, lookup, lookup-insert, arith,
}
use shinzo_host_client.Prelude.Int.{ℤ, leb_ℤ}
use shinzo_host_client.Acp.Balance.{
  BalanceAuthorizer, new_balance_authorizer, cached_funded, store_balance, authorize,
}

-- A balance that the hub gave for a payer, in the epoch that the request had read.
pub record HubRead (Address : Type 0) : Type 0 where
  pub epoch : ℕ
  pub payer : Address
  pub balance : ℤ

-- A read of the epoch for the payer with this balance is among the hub's answers.
pub data HasRead {Address : Type 0} (epoch : ℕ) (payer : Address) (balance : ℤ)
    : List (HubRead Address) → Type 0 where
  newest :
      {r : HubRead Address} {reads : List (HubRead Address)}
      → r.epoch ≡ epoch
      → r.payer ≡ payer
      → r.balance ≡ balance
      → HasRead epoch payer balance (r ∷ reads)
  older :
      {r : HubRead Address} {reads : List (HubRead Address)}
      → HasRead epoch payer balance reads
      → HasRead epoch payer balance (r ∷ reads)

both : (x y : Bool) → (x && y) ≡ true → (x ≡ true) × (y ≡ true)
both x y h = ground arith

module _ {Address : Type 0} ⦃e : Eq Address⦄ (min_balance : ℤ) where
  -- The lock regions of all requests, in the order in which they run, and the hub's answers that
  -- the second of them write.
  pub data Reached : List (HubRead Address) → BalanceAuthorizer Address → Type 0 where
    initial : Reached [] (new_balance_authorizer min_balance)
    check :
        {reads : List (HubRead Address)} {a : BalanceAuthorizer Address} (epoch : ℕ)
        (payer : Address)
        → Reached reads a
        → Reached reads (cached_funded epoch payer a).1
    write :
        {reads : List (HubRead Address)} {a : BalanceAuthorizer Address} (epoch : ℕ)
        (payer : Address) (balance : ℤ)
        → Reached reads a
        → Reached
            (record { epoch = epoch; payer = payer; balance = balance } ∷ reads)
            (store_balance epoch payer balance a)

  pub record Justified (reads : List (HubRead Address)) (a : BalanceAuthorizer Address)
      : Type 0 where
    pub minimum : a.min_balance ≡ min_balance
    pub justified :
        (payer : Address) (balance : ℤ)
        → lookup payer a.cache ≡ some balance
        → (leb_ℤ min_balance balance ≡ true) × HasRead a.cache_epoch payer balance reads

  check-Justified :
      {reads : List (HubRead Address)} (epoch : ℕ) (payer : Address) (a : BalanceAuthorizer Address)
      → Justified reads a
      → Justified reads (cached_funded epoch payer a).1
  unfolding cached_funded lookup
  check-Justified epoch payer a j = elim (Bool-cases (epoch == a.cache_epoch)) [
    | inl same ↦ rw same j
    | inr other ↦ rw other (record { minimum = j.minimum; justified = λ q b h. cc })
  ]

  write-Justified :
      {reads : List (HubRead Address)} (epoch : ℕ) (payer : Address) (balance : ℤ)
      (a : BalanceAuthorizer Address)
      → Justified reads a
      → Justified
          (record { epoch = epoch; payer = payer; balance = balance } ∷ reads)
          (store_balance epoch payer balance a)
  unfolding store_balance
  write-Justified epoch payer balance a j =
      elim (Bool-cases (a.cache_epoch == epoch && leb_ℤ a.min_balance balance)) [
        | inl stored ↦ rw stored (record {
          minimum = j.minimum;
          justified = λ q b h.
              let (now, enough) =
                both (a.cache_epoch == epoch) (leb_ℤ a.min_balance balance) stored in
              elim (Bool-cases (payer == q)) [
                | inl same ↦
                    let is_balance : balance ≡ b =
                      ground (arith, lookup-insert payer q balance a.cache) in
                    (
                      rw (← is_balance, ← j.minimum) enough,
                      newest (sym ((==_iff a.cache_epoch epoch).0 now)) ((==_iff payer q).0 same)
                          is_balance,
                    )
                | inr other ↦
                    let (m, r) =
                      j.justified q b (ground (arith, lookup-insert payer q balance a.cache)) in
                    (m, older r)
              ];
        })
        | inr skipped ↦ rw skipped (record {
          minimum = j.minimum;
          justified = λ q b h. let (m, r) = j.justified q b h in (m, older r);
        })
      ]

  -- However the lock regions interleave, every balance in the cache meets the minimum, and was read
  -- from the hub for that payer by a request of the cache's epoch.
  pub Reached-Justified :
      {reads : List (HubRead Address)} {a : BalanceAuthorizer Address}
      → Reached reads a
      → Justified reads a
  Reached-Justified initial = record {
    minimum = unfold new_balance_authorizer in refl;
    justified = λ payer balance h. unfold new_balance_authorizer lookup in cc;
  }
  Reached-Justified (check {a = a} epoch payer r) =
      check-Justified epoch payer a (Reached-Justified r)
  Reached-Justified (write {a = a} epoch payer balance r) =
      write-Justified epoch payer balance a (Reached-Justified r)

-- A denied payer is not held to the denial: in any state, if a request of an epoch is denied for
-- the hub's balance, a second request in that epoch is decided by the balance that the hub then
-- gives, and is allowed if that meets the minimum.
pub authorize_topup :
    {Address : Type 0} ⦃e : Eq Address⦄ (epoch : ℕ) (payer : Address) (low high : ℤ)
    (a : BalanceAuthorizer Address)
    → (authorize (some epoch) payer (some low) a).0 ≡ some false
    → leb_ℤ a.min_balance high ≡ true
    → (authorize (some epoch) payer (some high) (authorize (some epoch) payer (some low) a).1).0
      ≡ some true
authorize_topup ⦃e⦄ epoch payer low high a denied enough = unfold authorize lookup in ground arith
