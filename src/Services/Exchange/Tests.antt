-- ===== src/Services/Exchange/Tests.antt =====
-- The token exchange's theorems at a concrete service, and runs of its code.
use fenrir.Prelude.{
  ℕ, zero, suc, ◌*◌, ◌≤◌, second, String, true, false, List, [], ◌∷◌, ◌≡◌, refl, arith,
}
use fenrir.Prelude.Exec.{pure, raise}
use fenrir.Services.Exchange.{ModuleService, TokenExchange}
use fenrir.Services.Exchange.Limit.{
  Request, default_token, scoped_token, times_of, passed, passed-le,
}

-- A module service that counts the tokens that it records.
abbrev modules : ModuleService
modules = record {
  State = ℕ;
  Token = String;
  Lease = String;
  ModuleError = String;
  issue_default_service_token = λ id. pure "default";
  issue_scoped_service_token = λ id scopes. raise "no such scope";
  record_service_token = λ id token n. suc n;
  refresh_service_token = λ id. pure "lease";
}

abbrev idle : TokenExchange ℕ
idle = record { modules = 0; windows = []; poisoned = false; probes = [] }

abbrev three : List Request
three =
    default_token "m1" (10 * second)
    ∷ default_token "m2" (11 * second)
    ∷ scoped_token "m1" [] (39 * second)
    ∷ []

-- The request that the module service fails has come through the limit too.
three-passed : passed modules "m1" three idle ≡ 2
unfolding passed fenrir.Prelude.Dict.lookup fenrir.Prelude.Dict.insert
three-passed = refl

passed-le_example : passed modules "m1" three idle ≤ 120
unfolding times_of
passed-le_example =
    passed-le modules "m1" (10 * second) three idle refl
      ((omega arith, omega arith), ((omega arith, omega arith), tt))

-- The module has used its last window up.
abbrev tired : TokenExchange ℕ
tired = record idle { windows = ("m1", record { start = zero; count = 60 }) ∷ [] }

-- A request more would wait for the end of the window.
tired-passed : passed modules "m1" (default_token "m1" (20 * second) ∷ []) tired ≡ 0
unfolding passed fenrir.Prelude.Dict.lookup fenrir.Prelude.Dict.insert
tired-passed = refl

abbrev three_later : List Request
three_later =
    default_token "m1" (40 * second)
    ∷ default_token "m2" (41 * second)
    ∷ scoped_token "m1" [] (69 * second)
    ∷ []
