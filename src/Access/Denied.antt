-- ===== src/Access/Denied.antt =====
-- A row that is not there and one that the requester may not read are answered alike.
use gov_flow.Prelude.{suc, Bool, false, ◌≡◌, refl, Option, none, some}
use gov_flow.Errors.{Error}
use gov_flow.Runtime.{World, M, err, pure, throw, ◌>>=◌, ◌>>◌, require, require_some}

pub denied-err :
    {A : Type 0} (e : Error) (allowed : A → Bool) (row : Option A) (w : World)
    → ((x : A) → row ≡ some x → allowed x ≡ false)
    → (require_some row e >>= λ x. require (allowed x) e >> pure x) w ≡ (err e, w)
unfolding require require_some ◌>>=◌ throw pure
denied-err e allowed none w h = refl
denied-err e allowed (some x) w h = rw (h x refl) refl

-- The request ends in that error, and nothing is written.
abbrev pub IsDenied : {A : Type 0} → Error → M A → World → Type 0
IsDenied e m w = m w ≡ (err e, record w { ticks = suc w.ticks })
