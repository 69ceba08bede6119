-- ===== src/ErrorCode/Tests.antt =====
-- Codes of Quazal errors.
use scbl.Prelude.{◌≡◌, refl, ok, err}
use scbl.ErrorCode.{core, error_to_u32, error_try_from, readers}
use scbl.ErrorCode.Primitive.{try_from_primitive}
use scbl.ErrorCode.Core.{timeout, core_code}
use scbl.ErrorCode.RoundTrip.{error_try_from-error_to_u32}
use scbl.Prelude.Maps.{lookup}

core_timeout : error_to_u32 (core timeout) ≡ 0x8001_000b
unfolding error_to_u32 core_code
core_timeout = refl

read_timeout : error_try_from 0x8001_000b ≡ ok (core timeout)
unfolding error_try_from readers lookup try_from_primitive core_code
read_timeout = refl

-- Neither a code without the top bit nor one of an unknown category is a Quazal error.
not_quazal : error_try_from 0x0001_0001 ≡ err 0x0001_0001
unfolding error_try_from
not_quazal = refl

unknown_category : error_try_from 0x8007_0001 ≡ err 0x8007_0001
unfolding error_try_from readers lookup
unknown_category = refl

error_try_from-error_to_u32_example :
    error_try_from (error_to_u32 (core timeout)) ≡ ok (core timeout)
error_try_from-error_to_u32_example = error_try_from-error_to_u32 (core timeout)
