-- ===== src/Names/Platforms.antt =====
-- `platformsForTokens` and `channelNameTokens` of handlers/wharf_support.go. Which runes are letters
-- or digits is the table of Go's `unicode`, an argument here.
use Prim.Native.String.{◌++◌ as joined}
use den_kit_stash.Base.{
  ℕ, String, ◌≡◌, refl, Bool, List, [], ◌∷◌, ◌++◌, codes, equal, to_lower, map, select, any,
  if◌then◌else◌,
}

pub record PlatformRule : Type 0 where
  pub platform : String
  pub aliases : List String

-- channelPlatformRules
abbrev pub channel_platform_rules : List PlatformRule
channel_platform_rules =
    record { platform = "windows"; aliases = "win" ∷ "windows" ∷ [] }
    ∷ record { platform = "linux"; aliases = "linux" ∷ [] }
    ∷ record { platform = "osx"; aliases = "mac" ∷ "osx" ∷ [] }
    ∷ record { platform = "android"; aliases = "android" ∷ [] }
    ∷ []

-- A token that is being read is kept apart from those before it.
abbrev close : List ℕ → List (List ℕ) → List (List ℕ)
close [] tokens = tokens
close (c ∷ cs) tokens = (c ∷ cs) ∷ tokens

-- strings.FieldsFunc, with the characters between the fields those that are not in a word
unfoldable pub fields : (ℕ → Bool) → List ℕ → List ℕ → List (List ℕ)
fields is_word current [] = close current []
fields is_word current (c ∷ cs) =
    let inside = fields is_word (current ++ c ∷ []) cs in
    let outside = close current (fields is_word [] cs) in if is_word c then inside else outside

-- channelNameTokens: the keys of the map.
unfoldable pub channel_name_tokens : (ℕ → Bool) → List ℕ → List (List ℕ)
unfolding fields
channel_name_tokens is_word channel_name = fields is_word [] (to_lower channel_name)

abbrev has_token : List (List ℕ) → String → Bool
has_token tokens alias = any (λ t. equal t (codes alias)) tokens

-- The platforms whose rule has one of the tokens as an alias, in the order of the rules.
unfoldable pub matching_platforms : List (List ℕ) → List String
matching_platforms tokens =
    map (λ r. r.platform) (select (λ r. any (has_token tokens) r.aliases) channel_platform_rules)

abbrev quoted_items : List String → String
quoted_items [] = "]"
quoted_items (s ∷ ss) = joined ",\"" (joined s (joined "\"" (quoted_items ss)))

-- json.Marshal of a list of names that need no escape
abbrev pub marshal : List String → String
marshal [] = "[]"
marshal (s ∷ ss) = joined "[\"" (joined s (joined "\"" (quoted_items ss)))

-- platformsForTokens
unfoldable pub platforms_for_tokens : List (List ℕ) → String
unfolding matching_platforms
platforms_for_tokens tokens = marshal (matching_platforms tokens)

abbrev letters : ℕ → Bool
letters c = any (λ x. equal (x ∷ []) (c ∷ [])) (codes "abcdefghijklmnopqrstuvwxyz0123456789")

two_platforms :
    platforms_for_tokens (channel_name_tokens letters (codes "Win-Linux-beta"))
    ≡ "[\"windows\",\"linux\"]"
unfolding platforms_for_tokens channel_name_tokens
two_platforms = refl
