-- ===== src/Api/Ca.antt =====
-- api/v1/chiaca_types.go
use chia_opera.Base.{String, Bool, List}
use chia_opera.Api.Common.{ResourceMeta, ListMeta}

pub record ChiaCaSpec : Type 0 where
  pub image : String
  pub image_pull_secret : String
  pub secret : String

pub record ChiaCaStatus : Type 0 where
  pub ready : Bool

pub record ChiaCa : Type 0 where
  pub meta : ResourceMeta
  pub spec : ChiaCaSpec
  pub status : ChiaCaStatus

pub record ChiaCaList : Type 0 where
  pub meta : ListMeta
  pub items : List ChiaCa
