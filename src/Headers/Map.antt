-- ===== src/Headers/Map.antt =====
-- watermelon-proto/src/headers/map.rs. `cmp` is the order of `HeaderName`.
pub mod Laws
use watermelon.Prelude.{
  ℕ, ◌+◌, ◌-◌, Bool, List, [], ◌∷◌, ◌++◌, Option, none, some, Ordering, is_empty, length,
}
use watermelon.OrdMap
use watermelon.OrdMap.{Entries}
use watermelon.Headers.Name.{HeaderName}
use watermelon.Headers.Value.{HeaderValue}

pub data OneOrMany : Type 0 where
  one : HeaderValue → OneOrMany
  many : List HeaderValue → OneOrMany

-- `OneOrMany::len`
unfoldable pub count : OneOrMany → ℕ
count (one v) = 1
count (many vec) = length vec

-- `OneOrMany::push`
unfoldable pub push : OneOrMany → HeaderValue → OneOrMany
push (one current_item) item = many (current_item ∷ item ∷ [])
push (many vec) item = many (vec ++ item ∷ [])

-- `OneOrMany::iter`
unfoldable pub values : OneOrMany → List HeaderValue
values (one v) = v ∷ []
values (many vec) = vec

pub record HeaderMap : Type 0 where
  pub headers : Entries HeaderName OneOrMany
  pub len : ℕ

unfoldable pub new : HeaderMap
new = record { headers = []; len = 0 }

unfoldable pub keys_len : HeaderMap → ℕ
keys_len h = length h.headers

-- `HeaderMap::is_empty`
unfoldable pub has_no_keys : HeaderMap → Bool
has_no_keys h = is_empty h.headers

unfoldable pub clear : HeaderMap → HeaderMap
clear h = record { headers = []; len = 0 }

unfoldable pub pairs : Entries HeaderName OneOrMany → List (HeaderName × List HeaderValue)
unfolding values
pairs [] = []
pairs ((name, vs) ∷ m) = (name, values vs) ∷ pairs m

-- `HeaderMap::iter`, each name with its values
unfoldable pub iter : HeaderMap → List (HeaderName × List HeaderValue)
unfolding pairs
iter h = pairs h.headers

-- the `len` of a replaced or removed entry, if there was one
unfoldable pub previous : Option OneOrMany → ℕ
unfolding count
previous none = 0
previous (some prev) = count prev

-- `self.headers.get(name).unwrap_or(&EMPTY_HEADERS).iter()`
unfoldable pub values_or_empty : Option OneOrMany → List HeaderValue
unfolding values
values_or_empty none = []
values_or_empty (some vs) = values vs

-- what `append` stores: a vacant entry gets the value, an occupied one has it pushed
unfoldable pub extended : Option OneOrMany → HeaderValue → OneOrMany
unfolding push
extended none value = one value
extended (some vs) value = push vs value

first : List HeaderValue → Option HeaderValue
first [] = none
first (v ∷ vs) = some v

module _ (cmp : HeaderName → HeaderName → Ordering) where
  unfoldable pub get_all : HeaderName → HeaderMap → List HeaderValue
  unfolding values_or_empty
  get_all name h = values_or_empty (OrdMap.get cmp name h.headers)

  unfoldable pub get : HeaderName → HeaderMap → Option HeaderValue
  unfolding get_all first
  get name h = first (get_all name h)

  unfoldable pub insert : HeaderName → HeaderValue → HeaderMap → HeaderMap
  unfolding previous
  insert name value h = record {
    headers = OrdMap.insert cmp name (one value) h.headers;
    len = h.len - previous (OrdMap.get cmp name h.headers) + 1;
  }

  unfoldable pub append : HeaderName → HeaderValue → HeaderMap → HeaderMap
  unfolding extended
  append name value h = record {
    headers = OrdMap.insert cmp name (extended (OrdMap.get cmp name h.headers) value) h.headers;
    len = h.len + 1;
  }

  unfoldable pub remove : HeaderName → HeaderMap → HeaderMap
  unfolding previous
  remove name h = record {
    headers = OrdMap.remove cmp name h.headers;
    len = h.len - previous (OrdMap.get cmp name h.headers);
  }

  -- `Extend`
  unfoldable pub extend : List (HeaderName × HeaderValue) → HeaderMap → HeaderMap
  unfolding append
  extend [] h = h
  extend ((name, value) ∷ items) h = extend items (append name value h)

  -- `FromIterator`
  unfoldable pub from_iter : List (HeaderName × HeaderValue) → HeaderMap
  unfolding extend new
  from_iter items = extend items new
