-- ===== src/Preview/Patterns.antt =====
-- The regular expressions of pkg/api/v20191231preview/openshiftcluster_validatestatic.go as tests on
-- ASCII texts, and `Split` of pkg/util/subnet/subnet.go. The parts that the expressions of resource
-- IDs put between slashes hold no slash, so that such an ID is matched part by part.
use Prim.Native.String
use Prim.Native.String.{count}
use aro_rp.Base.{
  ℕ, zero, suc, String, Bool, true, false, ◌&&◌, ◌||◌, List, [], ◌∷◌, length, eqb, if◌then◌else◌,
}
use aro_rp.Base.Text.{equal_fold}
use aro_rp.Base.Split.{
  split, all_chars, first_char, last_char, is_digit, is_lower, is_upper, between,
}
use aro_rp.Api.Error.{Result, ok, err, other}

abbrev slash : ℕ
slash = 47

abbrev dot : ℕ
dot = 46

-- [-a-z0-9]
abbrev is_label_char : ℕ → Bool
is_label_char n = is_digit n || is_lower n || eqb n 45

abbrev is_alnum : ℕ → Bool
is_alnum n = is_digit n || is_lower n

-- [a-z0-9]|[a-z0-9][-a-z0-9]{0,61}[a-z0-9]
unfoldable pub is_label : String → Bool
unfolding all_chars first_char last_char
is_label s =
    between 1 63 (count s)
    && all_chars is_label_char s
    && first_char is_alnum s
    && last_char is_alnum s

abbrev all_labels : List String → Bool
all_labels [] = true
all_labels (s ∷ ss) = is_label s && all_labels ss

-- rxDomainName
unfoldable pub is_domain_name : String → Bool
unfolding is_label split
is_domain_name s = all_labels (split dot s)

-- [0-9a-f], in either case
abbrev is_hex : ℕ → Bool
is_hex n = is_digit n || between 97 102 n || between 65 70 n

abbrev is_hex_of : ℕ → String → Bool
is_hex_of n s = eqb (count s) n && all_chars is_hex s

abbrev are_hex : List String → Bool
are_hex (a ∷ b ∷ c ∷ d ∷ e ∷ []) =
    is_hex_of 8 a && is_hex_of 4 b && is_hex_of 4 c && is_hex_of 4 d && is_hex_of 12 e
are_hex ss = false

-- [0-9a-f]{8}-[0-9a-f]{4}-[0-9a-f]{4}-[0-9a-f]{4}-[0-9a-f]{12}
unfoldable pub is_uuid_text : String → Bool
unfolding all_chars split
is_uuid_text s = are_hex (split 45 s)

-- [-a-z0-9_.], in either case
abbrev is_name_char : ℕ → Bool
is_name_char n = is_digit n || is_lower n || is_upper n || eqb n 45 || eqb n 95 || eqb n 46

-- [-a-z0-9_().], in either case
abbrev is_group_char : ℕ → Bool
is_group_char n = is_name_char n || eqb n 40 || eqb n 41

abbrev is_group_end : ℕ → Bool
is_group_end n = if eqb n 46 then false else is_group_char n

-- [-a-z0-9_().]{0,89}[-a-z0-9_()]
unfoldable pub is_group_name : String → Bool
unfolding all_chars last_char
is_group_name s = between 1 90 (count s) && all_chars is_group_char s && last_char is_group_end s

abbrev is_name_of : ℕ → ℕ → String → Bool
is_name_of least most s = between least most (count s) && all_chars is_name_char s

abbrev group_parts : List String → Bool
group_parts (a ∷ b ∷ c ∷ d ∷ e ∷ []) =
    eqb (count a) 0
    && equal_fold b "subscriptions"
    && is_uuid_text c
    && equal_fold d "resourceGroups"
    && is_group_name e
group_parts ss = false

-- rxResourceGroupID
unfoldable pub is_resource_group_id : String → Bool
unfolding is_uuid_text is_group_name equal_fold split
is_resource_group_id s = group_parts (split slash s)

abbrev subnet_parts : List String → Bool
subnet_parts (a ∷ b ∷ c ∷ d ∷ e ∷ f ∷ g ∷ h ∷ i ∷ j ∷ k ∷ []) =
    group_parts (a ∷ b ∷ c ∷ d ∷ e ∷ [])
    && equal_fold f "providers"
    && equal_fold g "Microsoft.Network"
    && equal_fold h "virtualNetworks"
    && is_name_of 2 64 i
    && equal_fold j "subnets"
    && is_name_of 2 80 k
subnet_parts ss = false

-- rxSubnetID
unfoldable pub is_subnet_id : String → Bool
unfolding is_uuid_text is_group_name equal_fold split all_chars
is_subnet_id s = subnet_parts (split slash s)

-- strings.Split(id, "/")[n]; an index out of range, which panics, is not met where it is used
unfoldable pub part : List String → ℕ → String
part [] n = ""
part (s ∷ ss) zero = s
part (s ∷ ss) (suc n) = part ss n

-- strings.Join of the first n parts
abbrev join_first : ℕ → List String → String
join_first n [] = ""
join_first zero ss = ""
join_first (suc zero) (s ∷ ss) = s
join_first (suc (suc n)) (s ∷ ss) = String.◌++◌ s (String.◌++◌ "/" (join_first (suc n) ss))

-- subnet.Split: the virtual network's ID and the subnet's name
unfoldable pub split_subnet : String → Result (String × String)
unfolding split part
split_subnet id =
    let parts = split slash id in
    if eqb (length parts) 11
    then ok (join_first 9 parts, part parts 10)
    else err (other "subnet ID has incorrect length")
