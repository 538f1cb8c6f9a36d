-- ===== src/Mcp/Names.antt =====
-- How `toSnakeCase` of src/mcp/tool_registry.cpp divides a name into words.
use nexus_rpc.Common.{
  ℕ, ◌+◌, ◌≡◌, refl, ap, ◌∙◌, arith, Bool, true, false, ◌&&◌, ◌||◌, Bool-cases, inl, inr,
}
use nexus_rpc.Common.{Bytes, List, [], ◌∷◌, ◌++◌, none, some, All}
use nexus_rpc.Rpc.Decimal.{is_digit}
use nexus_rpc.Mcp.Registry.{
  is_upper, is_lower, starts_word, starts_lower, snake_case, to_snake_case,
}

abbrev pub is_tail : ℕ → Bool
is_tail c = is_lower c || is_digit c

-- A word of a name: a capital, a small letter, and small letters and digits behind them, as `Get`; or an
-- acronym, a capital with capitals behind it, as `URL`.
pub data Word : Type 0 where
  camel : (capital small : ℕ) → Bytes → Word
  acronym : ℕ → Bytes → Word

abbrev pub IsWord : Word → Type 0
IsWord (camel capital small tail) =
    (is_upper capital ≡ true) × (is_lower small ≡ true) × All (λ c. is_tail c ≡ true) tail
IsWord (acronym c cs) = (is_upper c ≡ true) × All (λ d. is_upper d ≡ true) cs

abbrev pub text : Word → Bytes
text (camel capital small tail) = capital ∷ small ∷ tail
text (acronym c cs) = c ∷ cs

abbrev pub small_letters : Bytes → Bytes
small_letters [] = []
small_letters (c ∷ cs) = (c + 32) ∷ small_letters cs

-- The word in small letters.
abbrev pub lower_text : Word → Bytes
lower_text (camel capital small tail) = (capital + 32) ∷ small ∷ tail
lower_text (acronym c cs) = (c + 32) ∷ small_letters cs

abbrev pub is_acronym : Word → Bool
is_acronym (camel capital small tail) = false
is_acronym (acronym c cs) = true

-- Words of which no two acronyms stand side by side.
abbrev pub AreWords : Bool → List Word → Type 0
AreWords behind [] = Unit
AreWords behind (w ∷ ws) =
    IsWord w × ((behind && is_acronym w) ≡ false) × AreWords (is_acronym w) ws

-- The name that the words make, and the words in small letters with underscores between them.
abbrev pub camel_name : List Word → Bytes
camel_name [] = []
camel_name (w ∷ ws) = text w ++ camel_name ws

abbrev pub underscored : List Word → Bytes
underscored [] = []
underscored (w ∷ ws) = 95 ∷ (lower_text w ++ underscored ws)

abbrev pub snake_name : List Word → Bytes
snake_name [] = []
snake_name (w ∷ ws) = lower_text w ++ underscored ws

-- The character in front of a word, behind an acronym or another word.
abbrev EndsWord : Bool → ℕ → Type 0
EndsWord false b = is_tail b ≡ true
EndsWord true b = is_upper b ≡ true

tail-snake_case :
    (b : ℕ) (tail : Bytes) (ws : List Word)
    → is_tail b ≡ true
    → All (λ c. is_tail c ≡ true) tail
    → ((c : ℕ) → is_tail c ≡ true → snake_case (some c) (camel_name ws) ≡ underscored ws)
    → snake_case (some b) (tail ++ camel_name ws) ≡ tail ++ underscored ws
unfolding snake_case
tail-snake_case b [] ws e h rest = rest b e
tail-snake_case b (c ∷ cs) ws e h rest =
    let capital : is_upper c ≡ false = ground (arith, h.0) in
    rw capital (ap (λ t. c ∷ t) (tail-snake_case c cs ws h.0 h.1 rest))

-- What stands behind an acronym begins with no small letter.
no_lower :
    (ws : List Word) (behind : Bool) → AreWords behind ws → starts_lower (camel_name ws) ≡ false
no_lower [] behind h = refl
no_lower (camel capital small tail ∷ ws) behind h = ground (arith, h.0.0)
no_lower (acronym c cs ∷ ws) behind h = ground (arith, h.0.0)

no_lower_inside :
    (cs : Bytes) (ws : List Word)
    → All (λ d. is_upper d ≡ true) cs
    → AreWords true ws
    → starts_lower (cs ++ camel_name ws) ≡ false
no_lower_inside [] ws h a = no_lower ws true a
no_lower_inside (c ∷ cs) ws h a = ground (arith, h.0)

starts-upper :
    (b : ℕ) (rest : Bytes)
    → is_upper b ≡ true
    → starts_lower rest ≡ false
    → starts_word (some b) rest ≡ false
starts-upper b rest e h =
    let no_small : is_lower b ≡ false = ground (arith, e) in
    let no_digit : is_digit b ≡ false = ground (arith, e) in rw (no_small, no_digit, h)

starts-tail : (b : ℕ) (rest : Bytes) → is_tail b ≡ true → starts_word (some b) rest ≡ true
starts-tail b rest e = elim (Bool-cases (is_lower b)) [
  | inl l ↦ rw l
  | inr l ↦ elim (Bool-cases (is_digit b)) [
    | inl d ↦ rw (l, d)
    | inr d ↦ absurd (ground (arith, l, d, e))
  ]
]

starts-small :
    (b small : ℕ) (rest : Bytes)
    → is_lower small ≡ true
    → starts_word (some b) (small ∷ rest) ≡ true
starts-small b small rest h = elim (Bool-cases (is_lower b)) [
  | inl l ↦ rw l
  | inr l ↦ elim (Bool-cases (is_digit b)) [ inl d ↦ rw (l, d) | inr d ↦ rw (l, d, h) ]
]

capitals-snake_case :
    (b : ℕ) (cs : Bytes) (ws : List Word)
    → is_upper b ≡ true
    → All (λ d. is_upper d ≡ true) cs
    → AreWords true ws
    → ((c : ℕ) → is_upper c ≡ true → snake_case (some c) (camel_name ws) ≡ underscored ws)
    → snake_case (some b) (cs ++ camel_name ws) ≡ small_letters cs ++ underscored ws
unfolding snake_case
capitals-snake_case b [] ws e h a rest = rest b e
capitals-snake_case b (c ∷ cs) ws e h a rest =
    let inside : starts_word (some b) (cs ++ camel_name ws) ≡ false =
      starts-upper b (cs ++ camel_name ws) e (no_lower_inside cs ws h.1 a) in
    rw (h.0, inside) (ap (λ t. (c + 32) ∷ t) (capitals-snake_case c cs ws h.0 h.1 a rest))

-- A capital at the beginning of a word, as the first character and behind another.
new_word :
    (b c : ℕ) (rest : Bytes)
    → is_upper c ≡ true
    → starts_word (some b) rest ≡ true
    → snake_case (some b) (c ∷ rest) ≡ 95 ∷ snake_case none (c ∷ rest)
unfolding snake_case
new_word b c rest e h = rw (e, h)

-- A word with the words behind it.
word-snake_case :
    (w : Word) (ws : List Word)
    → IsWord w
    → AreWords (is_acronym w) ws
    → ((c : ℕ) → EndsWord (is_acronym w) c → snake_case (some c) (camel_name ws) ≡ underscored ws)
    → snake_case none (text w ++ camel_name ws) ≡ lower_text w ++ underscored ws
unfolding snake_case
word-snake_case (camel capital small tail) ws h a rest =
    let small_one : is_upper small ≡ false = ground (arith, h.1) in
    rw (h.0, small_one)
      (ap (λ t. (capital + 32) ∷ small ∷ t)
        (tail-snake_case small tail ws (ground (arith, h.1)) h.2 rest))
word-snake_case (acronym c cs) ws h a rest =
    rw (h.0) (ap (λ t. (c + 32) ∷ t) (capitals-snake_case c cs ws h.0 h.1 a rest))

words-snake_case :
    (behind : Bool) (b : ℕ) (ws : List Word)
    → EndsWord behind b
    → AreWords behind ws
    → snake_case (some b) (camel_name ws) ≡ underscored ws
unfolding snake_case
words-snake_case behind b [] e a = refl
words-snake_case behind b (camel capital small tail ∷ ws) e a =
    new_word b capital (small ∷ (tail ++ camel_name ws)) a.0.0
      (starts-small b small (tail ++ camel_name ws) a.0.1)
    ∙ ap (λ t. 95 ∷ t)
        (word-snake_case (camel capital small tail) ws a.0 a.2
          λ c h. words-snake_case false c ws h a.2)
words-snake_case false b (acronym c cs ∷ ws) e a =
    new_word b c (cs ++ camel_name ws) a.0.0 (starts-tail b (cs ++ camel_name ws) e)
    ∙ ap (λ t. 95 ∷ t)
        (word-snake_case (acronym c cs) ws a.0 a.2 λ d h. words-snake_case true d ws h a.2)
words-snake_case true b (acronym c cs ∷ ws) e a = absurd cc

-- `toSnakeCase` of a name made of words, `Get` and `URL` for example, no two acronyms side by side, gives
-- the words in small letters with one underscore between each two.
pub to_snake_case-camel_name :
    (ws : List Word) → AreWords false ws → to_snake_case (camel_name ws) ≡ snake_name ws
unfolding to_snake_case snake_case
to_snake_case-camel_name [] a = refl
to_snake_case-camel_name (w ∷ ws) a =
    word-snake_case w ws a.0 a.2 λ c h. words-snake_case (is_acronym w) c ws h a.2
