-- ===== src/Streams/Items.antt =====
-- What the entries of a stream become in a message, one by one and as a batch.
use faststream.Prelude.{ℕ, ◌≡◌, refl, ap, ◌∙◌, Option, none, some, List, [], ◌∷◌, map, get_elem?}
use faststream.Exceptions.{ok}
use faststream.Streams.{
  Entry, ClaimMeta, Item, RawMessage, parse_stream_entry, attach_claim_metadata, with_metas,
  parse_all, plain_message, given_of,
}

abbrev pub first : Option (List ℕ) → Option ℕ
first none = none
first (some []) = none
first (some (x ∷ xs)) = some x

abbrev pub others : Option (List ℕ) → Option (List ℕ)
others none = none
others (some []) = some []
others (some (x ∷ xs)) = some xs

-- The entries in a message: its lists side by side.
abbrev pub side_by_side : ℕ → List ℕ → List ℕ → Option (List ℕ) → Option (List ℕ) → List Item
side_by_side channel (i ∷ ids) (d ∷ content) times counts =
    record {
      channel = channel;
      message_id = i;
      raw = d;
      idle_time = first times;
      delivery_count = first counts;
    }
    ∷ side_by_side channel ids content (others times) (others counts)
side_by_side channel _ _ times counts = []

abbrev pub items_of : RawMessage → List Item
items_of m = side_by_side m.channel m.message_ids m.content m.idle_times m.delivery_counts

-- The entry has what the server sends with it where messages are claimed.
abbrev pub IsWhole : Option ℕ → Entry → Type 0
IsWhole none e = Unit
IsWhole (some min_idle) e = (i : ℕ) × (c : ℕ) × (e.claim_meta ≡ i ∷ c ∷ [])

abbrev pub AllWhole : Option ℕ → List Entry → Type 0
AllWhole claim [] = Unit
AllWhole claim (e ∷ es) = IsWhole claim e × AllWhole claim es

-- An entry with its own data, and with its own claim metadata where messages are claimed.
abbrev pub item_for : Option ℕ → ℕ → Entry → Item
item_for none channel e = record {
  channel = channel;
  message_id = e.message_id;
  raw = e.raw;
  idle_time = none;
  delivery_count = none;
}
item_for (some min_idle) channel e = record {
  channel = channel;
  message_id = e.message_id;
  raw = e.raw;
  idle_time = get_elem? e.claim_meta 0;
  delivery_count = get_elem? e.claim_meta 1;
}

abbrev pub items_for : Option ℕ → ℕ → List Entry → List Item
items_for claim channel [] = []
items_for claim channel (e ∷ es) = item_for claim channel e ∷ items_for claim channel es

unfoldable pub single : ℕ → Entry → RawMessage
single channel e = plain_message channel (e.message_id ∷ []) (e.raw ∷ [])

abbrev pub batch : ℕ → List Entry → RawMessage
batch channel es = plain_message channel (map (λ x. x.message_id) es) (map (λ x. x.raw) es)

-- What is made of an entry by itself.
pub record Single (claim : Option ℕ) (channel : ℕ) (e : Entry) : Type 0 where
  pub meta : Option ClaimMeta
  pub parsed : parse_stream_entry claim e ≡ ok meta
  pub items :
      items_of (attach_claim_metadata (single channel e) (meta ∷ []))
      ≡ item_for claim channel e ∷ []

pub Single-IsWhole :
    (claim : Option ℕ) (channel : ℕ) (e : Entry) → IsWhole claim e → Single claim channel e
unfolding parse_stream_entry attach_claim_metadata single
Single-IsWhole none channel e w = record { meta = none; parsed = refl; items = refl }
Single-IsWhole (some min_idle) channel e (i, c, h) = record {
  meta = some (record { idle_time = i; delivery_count = c });
  parsed = rw h refl;
  items = rw h refl;
}

abbrev times : List ClaimMeta → List ℕ
times cs = map (λ c. c.idle_time) cs

abbrev counts : List ClaimMeta → List ℕ
counts cs = map (λ c. c.delivery_count) cs

-- What is made of entries together, where none is claimed, and where all are.
record Plain (channel : ℕ) (es : List Entry) : Type 0 where
  metas : List (Option ClaimMeta)
  parsed : parse_all none es ≡ ok metas
  given : given_of metas ≡ []
  items :
      side_by_side channel (map (λ x. x.message_id) es) (map (λ x. x.raw) es) none none
      ≡ items_for none channel es

record Claimed (min_idle channel : ℕ) (es : List Entry) : Type 0 where
  metas : List (Option ClaimMeta)
  parsed : parse_all (some min_idle) es ≡ ok metas
  items :
      side_by_side channel
        (map (λ x. x.message_id) es)
        (map (λ x. x.raw) es)
        (some (times (given_of metas)))
        (some (counts (given_of metas)))
      ≡ items_for (some min_idle) channel es

Plain-all : (channel : ℕ) (es : List Entry) → Plain channel es
unfolding parse_all parse_stream_entry
Plain-all channel [] = record { metas = []; parsed = refl; given = refl; items = refl }
Plain-all channel (e ∷ es) =
    let rest = Plain-all channel es in
    record {
      metas = none ∷ rest.metas;
      parsed = rw rest.parsed refl;
      given = rest.given;
      items = ap (λ (l : List Item). item_for none channel e ∷ l) rest.items;
    }

Claimed-all :
    (min_idle channel : ℕ) (es : List Entry)
    → AllWhole (some min_idle) es
    → Claimed min_idle channel es
unfolding parse_all parse_stream_entry
Claimed-all min_idle channel [] w = record { metas = []; parsed = refl; items = refl }
Claimed-all min_idle channel (e ∷ es) ((i, c, h), ws) =
    let rest = Claimed-all min_idle channel es ws in
    record {
      metas = some (record { idle_time = i; delivery_count = c }) ∷ rest.metas;
      parsed = rw (h, rest.parsed) refl;
      items = rw (h, rest.items) refl;
    }

pub record Batch (claim : Option ℕ) (channel : ℕ) (es : List Entry) : Type 0 where
  pub metas : List (Option ClaimMeta)
  pub parsed : parse_all claim es ≡ ok metas
  pub items : items_of (attach_claim_metadata (batch channel es) metas) ≡ items_for claim channel es

Batch-Plain : (channel : ℕ) (es : List Entry) → Plain channel es → Batch none channel es
unfolding attach_claim_metadata
Batch-Plain channel es p = record {
  metas = p.metas;
  parsed = p.parsed;
  items = ap (λ (l : List ClaimMeta). items_of (with_metas l (batch channel es))) p.given ∙ p.items;
}

pub Batch-IsWhole :
    (claim : Option ℕ) (channel : ℕ) (e : Entry) (es : List Entry)
    → AllWhole claim (e ∷ es)
    → Batch claim channel (e ∷ es)
unfolding attach_claim_metadata parse_all parse_stream_entry
Batch-IsWhole none channel e es w = Batch-Plain channel (e ∷ es) (Plain-all channel (e ∷ es))
Batch-IsWhole (some min_idle) channel e es ((i, c, h), ws) =
    let rest = Claimed-all min_idle channel es ws in
    record {
      metas = some (record { idle_time = i; delivery_count = c }) ∷ rest.metas;
      parsed = rw (h, rest.parsed) refl;
      items = rw (h, rest.items) refl;
    }
