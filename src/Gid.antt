-- ===== src/Gid.antt =====
-- packages/db/src/gid.ts: the ids of Shopify. An id that arrives is a text or a number; the digits are read
-- as the number that they show, without leading zeros, and the kind of the resource, which is fixed
-- for each table, is left out of a GID.
use win_back_ai.Base.{ℕ, Option, none, some}

pub data IdText : Type 0 where
  digits : ℕ → IdText
  other_text : IdText

-- wrap, and the functions for the resources that call it
abbrev pub wrap : IdText → Option ℕ
wrap (digits n) = some n
wrap other_text = none
