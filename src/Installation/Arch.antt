-- ===== src/Installation/Arch.antt =====
-- `Architecture` of crates/ret-core/src/arch.rs, built for an x86_64 host.
use r_environment_tools.Base.{
  ◌≡◌, refl, ◌||◌, Option, none, some, Text, codes, same_text, contains_text, to_ascii_lowercase,
  if◌then◌else◌,
}
use r_environment_tools.Installation.{Architecture, arm64, x64, x86}

unfoldable pub as_serialized_str : Architecture → Text
as_serialized_str arm64 = codes "arm64"
as_serialized_str x64 = codes "x86_64"
as_serialized_str x86 = codes "x86"

-- The match on the text in lower case.
unfoldable pub from_serialized_str : Text → Option Architecture
from_serialized_str value =
    let v = to_ascii_lowercase value in
    if same_text v (codes "arm64") || same_text v (codes "aarch64")
    then some arm64
    else if same_text v (codes "x64") || same_text v (codes "x86_64") || same_text v (codes "amd64")
    then some x64
    else if same_text v (codes "x86") || same_text v (codes "i386") || same_text v (codes "i686")
    then some x86
    else none

-- The path's text is given in lower case.
unfoldable pub infer_from_text : Text → Architecture
infer_from_text haystack =
    if contains_text (codes "aarch64") haystack || contains_text (codes "arm64") haystack
    then arm64
    else if contains_text (codes "x86_64") haystack || contains_text (codes "x64") haystack
    then x64
    else if contains_text (codes "i386") haystack
        || contains_text (codes "i686") haystack
        || contains_text (codes "x86") haystack
    then x86
    else x64

-- Every architecture is read back from what is serialized for it.
pub from-as_serialized_str : (a : Architecture) → from_serialized_str (as_serialized_str a) ≡ some a
unfolding from_serialized_str as_serialized_str same_text to_ascii_lowercase
from-as_serialized_str arm64 = refl
from-as_serialized_str x64 = refl
from-as_serialized_str x86 = refl
