-- ===== src/Tests/Streams.antt =====
-- The theorem on snapshots at a concrete sequence of writes.
use tab_linux.Base.{◌≡◌, true, some, List, [], ◌∷◌, arith, length}
use tab_linux.Snapshot.RoundTrip.{read_items, read_items-write_items, write_items, Item}
use tab_linux.Snapshot.{new_reader}

abbrev items : List Item
items = Item.u32_item 7 ∷ Item.bool_item true ∷ Item.bytes_item (1 ∷ 2 ∷ []) ∷ []

read_items-write_items_example :
    read_items items (new_reader (write_items [] items))
    ≡ some (items, record { buf = write_items [] items; pos = length (write_items [] items) })
read_items-write_items_example = read_items-write_items items (omega arith, (tt, (omega arith, tt)))
