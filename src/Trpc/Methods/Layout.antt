-- ===== src/Trpc/Methods/Layout.antt =====
-- The layouts of `METHOD_SPECS` (src/tekmar_482/trpc.py) are well formed.
use tekmar.Prelude.{arith}
use tekmar.Prelude.Dict.{text_key, lookup, insert}
use tekmar.Trpc.Spec.{field_aliases}
use tekmar.Trpc.Spec.Laws.{Distinct, SelfNamed}
use tekmar.Trpc.Methods.{TrpcMethod, null_method, spec_of}

-- The fields of every method have distinct names.
pub spec_of-Distinct : (m : TrpcMethod) → Distinct (spec_of m).fields
unfolding spec_of
spec_of-Distinct null_method = tt
spec_of-Distinct _ = ground arith

-- No alias of a field hides the name of another.
pub spec_of-SelfNamed : (m : TrpcMethod) → SelfNamed (field_aliases (spec_of m)) (spec_of m).fields
unfolding spec_of field_aliases lookup insert
spec_of-SelfNamed null_method = tt
spec_of-SelfNamed _ = ground arith
