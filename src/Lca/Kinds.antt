-- ===== src/Lca/Kinds.antt =====
-- backend/src/modules/lca/types.ts: the unions of literals.

pub data CanonicalDataSourceKind : Type 0 where
  spend activity hybrid : CanonicalDataSourceKind

pub data ActivityUnit : Type 0 where
  kwh liter km kg : ActivityUnit

pub data InputOrigin : Type 0 where
  manual ocr open_banking api_activity : InputOrigin

pub data ActivityCategory : Type 0 where
  coal_mining_crude_petroleum_and_natural_gas electricity gas_supply : ActivityCategory
  railway_transport_passengers bus_transport_service : ActivityCategory
  hired_car_and_taxi_transport self_transport_passengers : ActivityCategory
