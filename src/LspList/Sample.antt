-- ===== src/LspList/Sample.antt =====
-- Two small lists, on which the tests run the functions of lsp_list.h.
use liblsp.Prelude.{◌+◌, ◌-◌, refl, true, List, [], ◌∷◌, ◌==◌, if◌then◌else◌, Ptr}
use liblsp.LspList.{Links}
use liblsp.LspList.Ring.{IsRing}

-- A memory of nodes 1 to 9, with node 1 the head of a list of nodes 2 and 3.
abbrev pub pair_links : Links
pair_links = record {
  mapped = λ p. true;
  next = λ p. if p == 3 then 1 else p + 1;
  prev = λ p. if p == 1 then 3 else p - 1;
}

abbrev pub pair_nodes : List Ptr
pair_nodes = 2 ∷ 3 ∷ []

-- The same memory, with node 1 the head of a list of node 2 alone.
abbrev pub single_links : Links
single_links = record {
  mapped = λ p. true;
  next = λ p. if p == 1 then 2 else 1;
  prev = λ p. if p == 1 then 2 else 1;
}

-- The same memory, with node 1 the head of an empty list.
abbrev pub alone_links : Links
alone_links = record { mapped = λ p. true; next = λ p. 1; prev = λ p. 1 }

pub alone-IsRing : IsRing alone_links 1 []
alone-IsRing = record {
  mapped = (refl, tt);
  forth = (refl, tt);
  back = refl;
  distinct = (refl, tt);
}

pub pair-IsRing : IsRing pair_links 1 pair_nodes
pair-IsRing = record {
  mapped = (refl, (refl, (refl, tt)));
  forth = (refl, (refl, (refl, tt)));
  back = (refl, (refl, refl));
  distinct = (refl, (refl, (refl, tt)));
}

pub single-IsRing : IsRing single_links 1 (2 ∷ [])
single-IsRing = record {
  mapped = (refl, (refl, tt));
  forth = (refl, (refl, tt));
  back = (refl, refl);
  distinct = (refl, (refl, tt));
}
