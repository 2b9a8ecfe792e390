-- ===== src/Acp/Balance.antt =====
-- pkg/acp/balance.go: a payer passes if its balance on the hub meets the minimum. Balances are
-- `big.Int`, so unbounded; the addresses are any type with a test. `Authorize` runs as the steps
-- between which another request can take the lock: the cache check, and after the hub's answer the
-- cache write.
pub mod Funded
use shinzo_host_client.Prelude.{
  ℕ, Bool, true, false, not, ◌&&◌, Option, none, some, List, [], ◌∷◌, Eq, ◌==◌, nat_eq,
  if◌then◌else◌, Map, lookup, insert,
}
use shinzo_host_client.Prelude.Int.{ℤ, leb_ℤ}

pub record BalanceAuthorizer (Address : Type 0) : Type 0 where
  pub min_balance : ℤ
  pub cache : Map Address ℤ
  pub cache_epoch : ℕ

abbrev is_found : Option ℤ → Bool
is_found none = false
is_found (some b) = true

module _ {Address : Type 0} ⦃e : Eq Address⦄ where
  unfoldable pub new_balance_authorizer : ℤ → BalanceAuthorizer Address
  new_balance_authorizer min_balance = record {
    min_balance = min_balance;
    cache = [];
    cache_epoch = 0;
  }

  -- Whether the payer is cached as funded in this epoch; a new epoch drops the cache.
  unfoldable pub cached_funded :
      ℕ → Address → BalanceAuthorizer Address → Bool × BalanceAuthorizer Address
  cached_funded epoch payer a =
      if not (epoch == a.cache_epoch)
      then (false, record a { cache = []; cache_epoch = epoch })
      else (is_found (lookup payer a.cache), a)

  unfoldable pub is_funded : BalanceAuthorizer Address → ℤ → Bool
  is_funded a balance = leb_ℤ a.min_balance balance

  -- The lock region that ends `Authorize`.
  unfoldable pub store_balance :
      ℕ → Address → ℤ → BalanceAuthorizer Address → BalanceAuthorizer Address
  unfolding is_funded
  store_balance epoch payer balance a =
      if a.cache_epoch == epoch && is_funded a balance
      then record a { cache = insert payer balance a.cache }
      else a

  settle_read :
      ℕ → Address → Option ℤ → BalanceAuthorizer Address → Option Bool × BalanceAuthorizer Address
  unfolding is_funded store_balance
  settle_read epoch payer none a = (none, a)
  settle_read epoch payer (some balance) a =
      (some (is_funded a balance), store_balance epoch payer balance a)

  after_check :
      ℕ
      → Address
      → Option ℤ
      → Bool × BalanceAuthorizer Address
      → Option Bool × BalanceAuthorizer Address
  unfolding settle_read
  after_check epoch payer balance (true, a) = (some true, a)
  after_check epoch payer balance (false, a) = settle_read epoch payer balance a

  -- `Authorize` with nothing in between: `none` for an error of the epoch, of the encoding of the
  -- address, or of the hub's balance.
  unfoldable pub authorize :
      Option ℕ
      → Address
      → Option ℤ
      → BalanceAuthorizer Address
      → Option Bool × BalanceAuthorizer Address
  unfolding after_check cached_funded
  authorize none payer balance a = (none, a)
  authorize (some epoch) payer balance a =
      after_check epoch payer balance (cached_funded epoch payer a)
