-- ===== src/Sensors.antt =====
-- The sensors of the station: the humidity and temperature sensor of DHT/DHT.cpp.
pub mod Dht
