-- ===== src/Amf/RoundTrip.antt =====
-- The decoder reads back what the encoder writes.
pub mod Scalars
mod HeapLaws
mod Names
mod Tables
use smart_rabbit_server.Base.{
  ◌+◌, ◌≤◌, ◌∙◌, zero, none, [], ◌∷◌, Bool, ◌*◌, ◌++◌, length, length-append, arith,
}
use smart_rabbit_server.Amf.Value.{Value}
use smart_rabbit_server.Base.Int.{pos}
use smart_rabbit_server.Amf.Encoder.Forms.{wire_int-length}
use smart_rabbit_server.Amf.Tree.{
  Tree, null, bool, int, real, text, dict, Entries, end, entry, wire, wire_entries, wire_string,
  wire_int, weight, weight_entries,
}

mutual
  unfolding wire

  weight-le-wire_tree : (be : Bool) (t : Tree) → weight t ≤ length (wire be t)
  weight-le-wire_tree be null = omega arith
  weight-le-wire_tree be (bool b) = omega arith
  weight-le-wire_tree be (int z) = omega arith
  weight-le-wire_tree be (real d) = omega arith
  weight-le-wire_tree be (text s) = omega arith
  weight-le-wire_tree be (dict es) =
      omega (arith, weight-le-wire_entries be es, length-append (wire_entries be es) (1 ∷ []))

  weight-le-wire_entries :
      (be : Bool) (es : Entries) → weight_entries es ≤ length (wire_entries be es) + 1
  weight-le-wire_entries be end = omega arith
  weight-le-wire_entries be (entry k t es) = omega (
    arith,
    weight-le-wire_tree be t,
    weight-le-wire_entries be es,
    length-append (wire_string k) (wire be t ++ wire_entries be es),
    length-append (wire be t) (wire_entries be es),
    length-append (wire_int (pos (length k * 2 + 1))) k,
    wire_int-length (pos (length k * 2 + 1)),
  )
