-- ===== src/PacketHandler/Never.antt =====
-- The parse functions of BaseStation/BaseStationPacket/PacketHandler.cpp on any array.
