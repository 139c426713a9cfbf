-- ===== src/Sdk/Messages.antt =====
-- The requests and responses of the gRPC service of the engine, as pkg/sdk makes them.
use natun.Prelude.{Bool, Option}
use natun.Prelude.Text.{Text}
use natun.Api.Keys.{Keys}
use natun.Sdk.Wire.{WireDescriptor, WireScalar, WireValue}

-- The messages of api/proto/core/v1alpha1/api.proto.
pub record DescriptorRequest : Type 0 where
  pub uuid : Text
  pub selector : Text

pub record DescriptorResponse (D : Type 0) : Type 0 where
  pub uuid : Text
  pub feature_descriptor : WireDescriptor D

pub record GetRequest : Type 0 where
  pub uuid : Text
  pub selector : Text
  pub keys : Keys

pub record FeatureValue (F T : Type 0) : Type 0 where
  pub fqn : Text
  pub keys : Keys
  pub value : Option (WireValue F T)
  pub timestamp : T
  pub fresh : Bool

pub record GetResponse (F T D : Type 0) : Type 0 where
  pub uuid : Text
  pub value : FeatureValue F T
  pub feature_descriptor : WireDescriptor D

-- SetRequest and UpdateRequest
pub record SetRequest (F T : Type 0) : Type 0 where
  pub uuid : Text
  pub selector : Text
  pub keys : Keys
  pub value : Option (WireValue F T)
  pub timestamp : T

-- AppendRequest and IncrRequest
pub record AppendRequest (F T : Type 0) : Type 0 where
  pub uuid : Text
  pub fqn : Text
  pub keys : Keys
  pub value : Option (WireScalar F T)
  pub timestamp : T

-- SetResponse, AppendResponse, IncrResponse and UpdateResponse
pub record WriteResponse (T : Type 0) : Type 0 where
  pub uuid : Text
  pub timestamp : T
