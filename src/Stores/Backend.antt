-- ===== src/Stores/Backend.antt =====
-- `Store` of pkg/types/server_types.go, over a state that its writes hand on. The request is
-- the model's ApiRequest; `Watch` stands in Stores/Watches.
use brent.Base.{String}
use brent.Api.Errors.{Result}
use brent.Api.Types.{ApiSchema}
use brent.Api.Objects.{ApiObject, ApiObjectList}
use brent.Api.Schemas.{Schemer}
use brent.Requests.Parse.{ApiRequest}

pub record Backend (schemer : Schemer) (C : Type 0) : Type 0 where
  pub by_id : ApiRequest schemer → ApiSchema → String → C → Result ApiObject
  pub list : ApiRequest schemer → ApiSchema → C → Result ApiObjectList
  pub create : ApiRequest schemer → ApiSchema → ApiObject → C → Result ApiObject × C
  pub update : ApiRequest schemer → ApiSchema → ApiObject → String → C → Result ApiObject × C
  pub delete : ApiRequest schemer → ApiSchema → String → C → Result ApiObject × C
