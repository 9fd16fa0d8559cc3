-- ===== src/App/World/Quiet.antt =====
-- Parts of a service that make no call outside.
use serverless_order_integra.Base.{◌≡◌, refl, Result, ok, err}
use serverless_order_integra.Base.Exec.{lift, ◌>>=◌}
use serverless_order_integra.Domain.Errors.{AppError}
use serverless_order_integra.App.World.{World, App}

abbrev pub IsQuiet : {A : Type 0} → App A → Type 0
IsQuiet m = (w : World) → (m w).1.outside ≡ w.outside

pub continue-IsQuiet :
    {A B : Type 0} (r : Result AppError A) (f : A → App B)
    → ((a : A) → IsQuiet (f a))
    → IsQuiet (lift r >>= f)
continue-IsQuiet (ok a) f h w = h a w
continue-IsQuiet (err e) f h w = refl
