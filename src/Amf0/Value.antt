-- ===== src/Amf0/Value.antt =====
-- library/container/flv/src/amf0/define.rs: the values. The `IndexMap` that an object holds its
-- properties in stands for itself by its entries in their order. A string stands
-- for itself by its UTF-8 bytes, a number by the 64 bits of its float.
use xiu.Prelude.{ℕ, suc, Bool}
use xiu.Prelude.Words.{Bytes}

mutual
  pub data Amf0ValueType : Type 0 where
    number : ℕ → Amf0ValueType
    boolean : Bool → Amf0ValueType
    utf8_string : Bytes → Amf0ValueType
    object : Properties → Amf0ValueType
    null : Amf0ValueType
    ecma_array : Properties → Amf0ValueType
    long_utf8_string : Bytes → Amf0ValueType
    end : Amf0ValueType

  -- `IndexMap<String, Amf0ValueType>`
  pub data Properties : Type 0 where
    no_properties : Properties
    property : Bytes → Amf0ValueType → Properties → Properties

abbrev pub count : Properties → ℕ
count no_properties = 0
count (property k v ps) = suc (count ps)
