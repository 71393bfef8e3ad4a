-- ===== src/Host.antt =====
-- What the handlers of src/rtk_hermes_plus share at run time: one vault and one set of counters.
use token_terminator.Common.{ℕ, String, Result}
use token_terminator.Common.Actions.{Action, modify}
use token_terminator.Metrics.{Counts, add}
use token_terminator.Vault.Tables.{Vault}

pub record Host : Type 0 where
  pub vault : Vault
  pub metrics : Counts

abbrev pub on_vault : {A : Type 0} → (Vault → Result A × Vault) → Action Host A
on_vault f h = let (r, v) = f h.vault in (r, record h { vault = v })

-- metrics.add(key, amount)
abbrev pub tally : String → ℕ → Action Host (Unit {0})
tally key amount = modify (λ h. record h { metrics = add key amount h.metrics })
