-- ===== src/Adapters.antt =====
-- py/src/esr/adapter.py: the registry of adapters and their configurations. `C` is the type of the
-- classes, of which `has_factory` says whether they define a static factory.
use esr.Base.{Bool, not, Str, Dict, has, put, starts_with, if◌then◌else◌, lit}
use esr.Base.Result.{Result, ok, err, Exc, value_error, type_error, attribute_error}
use esr.Value.{Value, null, get_or}

pub record AdapterEntry (C : Type 0) : Type 0 where
  pub name : Str
  pub cls : C
  pub allowed_io : Dict Value

-- The decorator that `adapter` returns.
unfoldable pub register_adapter :
    {C : Type 0}
    → (has_factory : C → Bool) → Dict (AdapterEntry C)
    → (name : Str) (allowed_io : Dict Value) → C
    → Result Exc (Dict (AdapterEntry C))
register_adapter has_factory registry name allowed_io cls =
    if not (has_factory cls)
    then err type_error
    else if has registry name
    then err value_error
    else ok (put registry name (record { name = name; cls = cls; allowed_io = allowed_io }))

-- `AdapterConfig`, with its items.
abbrev pub AdapterConfig : Type 0
AdapterConfig = Dict Value

-- `AdapterConfig.__getattr__`
unfoldable pub attribute : AdapterConfig → Str → Result Exc Value
attribute config item =
    if starts_with item (lit "_")
    then err attribute_error
    else if has config item
    then ok (get_or config item null)
    else err attribute_error

-- `getattr(config, item, default)`
abbrev pub or_default : Value → Result Exc Value → Value
or_default default (ok v) = v
or_default default (err e) = default

unfoldable pub getattr : AdapterConfig → Str → (default : Value) → Value
unfolding attribute
getattr config item default = or_default default (attribute config item)
