-- ===== src/Report/Cache.antt =====
-- include/aview.hh: the description of the caches.
use archspec.Base.{Bytes, List, codes}
use archspec.Report.Field.{
  StringField, U32Field, U64Field, Default, init, field_default, list_default, nat_default,
}

pub data CacheType : Type 0 where
  unknown data_cache instruction unified : CacheType

-- `to_string(CacheType)`
unfoldable pub cache_type_text : CacheType → Bytes
cache_type_text unknown = codes "unknown"
cache_type_text data_cache = codes "data"
cache_type_text instruction = codes "instruction"
cache_type_text unified = codes "unified"

pub record CacheInfo : Type 0 where
  pub cpu_id : U32Field
  pub level : U32Field
  pub type : CacheType
  pub size : U64Field
  pub line_size : U64Field
  pub associativity : U64Field
  pub sets : U64Field
  pub shared_cpu_list : StringField

instance unfoldable pub cache_info_default : Default CacheInfo
cache_info_default = record {
  default = record {
    cpu_id = init;
    level = init;
    type = unknown;
    size = init;
    line_size = init;
    associativity = init;
    sets = init;
    shared_cpu_list = init;
  };
}

pub record CacheList : Type 0 where
  pub entries : List CacheInfo

instance unfoldable pub cache_list_default : Default CacheList
cache_list_default = record { default = record { entries = init } }
