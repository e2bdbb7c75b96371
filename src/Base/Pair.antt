-- ===== src/Base/Pair.antt =====
-- The two cores, and the arrays of two elements that the machine indexes by a core or by 0 and 1.

-- n1g_core_t: N1G_CORE_CPU = 0, N1G_CORE_COP = 1.
pub data Core : Type 0 where
  cpu cop : Core

pub record Duo {ℓ} (A : Type ℓ) : Type ℓ where
  pub at0 : A
  pub at1 : A

abbrev pub get {ℓ} : {A : Type ℓ} → Duo A → Core → A
get d cpu = d.at0
get d cop = d.at1

abbrev pub put {ℓ} : {A : Type ℓ} → Duo A → Core → A → Duo A
put d cpu a = record d { at0 = a }
put d cop a = record d { at1 = a }
