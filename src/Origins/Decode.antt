-- ===== src/Origins/Decode.antt =====
-- What `RequestOrigin(**entry)` makes of an entry that `record` wrote.
use aap_hermes.Prelude.{◌≡◌, refl, some}
use aap_hermes.Prelude.Dict.{lookup}
use aap_hermes.Origins.{RequestOrigin, asdict, from_dict}

pub from_dict-asdict : (o : RequestOrigin) → from_dict (asdict o) ≡ some o
unfolding from_dict asdict
from_dict-asdict o = refl

pub target-asdict : (o : RequestOrigin) → lookup "target_address" (asdict o) ≡ some o.target_address
unfolding lookup asdict
target-asdict o = refl

pub created-asdict : (o : RequestOrigin) → lookup "created_at" (asdict o) ≡ some o.created_at
unfolding lookup asdict
created-asdict o = refl
