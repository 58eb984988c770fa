-- ===== src/Lca/SpendNames.antt =====
-- backend/src/modules/lca/types.ts: `spendCategories`, as the texts that they are.
use personal_carbon_footprin.Prelude.{String}
use personal_carbon_footprin.Lca.SpendCategory.{SpendCategory}

unfoldable pub spend_name : SpendCategory → String
spend_name SpendCategory.rice = "Rice"
spend_name SpendCategory.wheat_barley_and_the_like = "WheatBarleyAndTheLike"
spend_name SpendCategory.potatoes_and_sweet_potatoes = "PotatoesAndSweetPotatoes"
spend_name SpendCategory.pulses = "Pulses"
spend_name SpendCategory.vegetables = "Vegetables"
spend_name SpendCategory.fruits = "Fruits"
spend_name SpendCategory.sugar_crops = "SugarCrops"
spend_name SpendCategory.crops_for_beverages = "CropsForBeverages"
spend_name SpendCategory.miscellaneous_edible_crops = "MiscellaneousEdibleCrops"
spend_name SpendCategory.feed_and_forage_crops = "FeedAndForageCrops"
spend_name SpendCategory.seeds_and_seedlings = "SeedsAndSeedlings"
spend_name SpendCategory.flowers_and_plants = "FlowersAndPlants"
spend_name SpendCategory.miscellaneous_inedible_crops = "MiscellaneousInedibleCrops"
spend_name SpendCategory.dairy_cattle_farming = "DairyCattleFarming"
spend_name SpendCategory.beef_cattle = "BeefCattle"
spend_name SpendCategory.hogs = "Hogs"
spend_name SpendCategory.hen_eggs = "HenEggs"
spend_name SpendCategory.chickens = "Chickens"
spend_name SpendCategory.miscellaneous_livestock = "MiscellaneousLivestock"
spend_name SpendCategory.agricultural_services = "AgriculturalServices"
spend_name SpendCategory.silviculture = "Silviculture"
spend_name SpendCategory.logs = "Logs"
spend_name SpendCategory.special_forest_products_including_hunting =
    "SpecialForestProductsIncludingHunting"
spend_name SpendCategory.marine_fishery = "MarineFishery"
spend_name SpendCategory.marine_aquaculture = "MarineAquaculture"
spend_name SpendCategory.inland_water_fishery_and_inland_water_aquaculture =
    "InlandWaterFisheryAndInlandWaterAquaculture"
spend_name SpendCategory.coal_mining_crude_petroleum_and_natural_gas =
    "CoalMiningCrudePetroleumAndNaturalGas"
spend_name SpendCategory.gravel_and_quarrying = "GravelAndQuarrying"
spend_name SpendCategory.miscellaneous_ores = "MiscellaneousOres"
spend_name SpendCategory.meat = "Meat"
spend_name SpendCategory.dairy_farm_products = "DairyFarmProducts"
spend_name SpendCategory.miscellaneous_livestock_products = "MiscellaneousLivestockProducts"
spend_name SpendCategory.frozen_fish_and_shellfish = "FrozenFishAndShellfish"
spend_name SpendCategory.salted_dried_or_smoked_seafood = "SaltedDriedOrSmokedSeafood"
spend_name SpendCategory.bottled_or_canned_seafood = "BottledOrCannedSeafood"
spend_name SpendCategory.fish_paste = "FishPaste"
spend_name SpendCategory.miscellaneous_processed_seafood = "MiscellaneousProcessedSeafood"
spend_name SpendCategory.grain_milling = "GrainMilling"
spend_name SpendCategory.flour_and_miscellaneous_grain_milled_products =
    "FlourAndMiscellaneousGrainMilledProducts"
spend_name SpendCategory.noodles = "Noodles"
spend_name SpendCategory.bread = "Bread"
spend_name SpendCategory.confectionery = "Confectionery"
spend_name SpendCategory.preserved_agricultural_foodstuffs = "PreservedAgriculturalFoodstuffs"
spend_name SpendCategory.sugar = "Sugar"
spend_name SpendCategory.starch = "Starch"
spend_name SpendCategory.dextrose_syrup_and_isomerized_sugar = "DextroseSyrupAndIsomerizedSugar"
spend_name SpendCategory.animal_oil_and_fats_vegetable_oil_and_meal =
    "AnimalOilAndFatsVegetableOilAndMeal"
spend_name SpendCategory.condiments_and_seasonings = "CondimentsAndSeasonings"
spend_name SpendCategory.prepared_frozen_foods = "PreparedFrozenFoods"
spend_name SpendCategory.dishes_sushi_and_lunch_boxes = "DishesSushiAndLunchBoxes"
spend_name SpendCategory.retort_foods = "RetortFoods"
spend_name SpendCategory.miscellaneous_foods = "MiscellaneousFoods"
spend_name SpendCategory.refined_sake = "RefinedSake"
spend_name SpendCategory.malt_liquors = "MaltLiquors"
spend_name SpendCategory.whiskey_and_brandy = "WhiskeyAndBrandy"
spend_name SpendCategory.miscellaneous_liquors = "MiscellaneousLiquors"
spend_name SpendCategory.tea_and_roasted_coffee = "TeaAndRoastedCoffee"
spend_name SpendCategory.soft_drinks = "SoftDrinks"
spend_name SpendCategory.manufactured_ice = "ManufacturedIce"
spend_name SpendCategory.feeds = "Feeds"
spend_name SpendCategory.organic_fertilizers_nec = "OrganicFertilizersNEC"
spend_name SpendCategory.tobacco = "Tobacco"
spend_name SpendCategory.fiber_yarns = "FiberYarns"
spend_name
      SpendCategory.cotton_and_staple_fiber_fabrics_including_fabrics_of_synthetic_spun_fibers =
    "CottonAndStapleFiberFabricsIncludingFabricsOfSyntheticSpunFibers"
spend_name
      SpendCategory.silk_and_artificial_silk_fabrics_including_fabrics_of_synthetic_filament_fibers =
    "SilkAndArtificialSilkFabricsIncludingFabricsOfSyntheticFilamentFibers"
spend_name SpendCategory.miscellaneous_fabrics = "MiscellaneousFabrics"
spend_name SpendCategory.knitting_fabrics = "KnittingFabrics"
spend_name SpendCategory.yarn_and_fabric_dyeing_and_finishing_processing_on_commission_only =
    "YarnAndFabricDyeingAndFinishingProcessingOnCommissionOnly"
spend_name SpendCategory.miscellaneous_fabricated_textile_products =
    "MiscellaneousFabricatedTextileProducts"
spend_name SpendCategory.woven_fabric_apparel = "WovenFabricApparel"
spend_name SpendCategory.knitted_apparel = "KnittedApparel"
spend_name SpendCategory.miscellaneous_wearing_apparel_and_clothing_accessories =
    "MiscellaneousWearingApparelAndClothingAccessories"
spend_name SpendCategory.bedding = "Bedding"
spend_name SpendCategory.carpets_and_floor_mats = "CarpetsAndFloorMats"
spend_name SpendCategory.miscellaneous_ready_made_textile_products =
    "MiscellaneousReadyMadeTextileProducts"
spend_name SpendCategory.timber = "Timber"
spend_name SpendCategory.plywood_glued_laminated_timber = "PlywoodGluedLaminatedTimber"
spend_name SpendCategory.wooden_chips = "WoodenChips"
spend_name SpendCategory.miscellaneous_wooden_products = "MiscellaneousWoodenProducts"
spend_name SpendCategory.wooden_furniture = "WoodenFurniture"
spend_name SpendCategory.metallic_furniture = "MetallicFurniture"
spend_name SpendCategory.wooden_fixtures = "WoodenFixtures"
spend_name SpendCategory.miscellaneous_furniture_and_fixtures = "MiscellaneousFurnitureAndFixtures"
spend_name SpendCategory.pulp = "Pulp"
spend_name SpendCategory.paper = "Paper"
spend_name SpendCategory.paperboard = "Paperboard"
spend_name SpendCategory.corrugated_cardboard = "CorrugatedCardboard"
spend_name SpendCategory.coated_paper_and_building_construction_paper =
    "CoatedPaperAndBuildingConstructionPaper"
spend_name SpendCategory.corrugated_card_board_boxes = "CorrugatedCardBoardBoxes"
spend_name SpendCategory.miscellaneous_paper_containers = "MiscellaneousPaperContainers"
spend_name SpendCategory.paper_textile_for_medical_use = "PaperTextileForMedicalUse"
spend_name SpendCategory.miscellaneous_pulp_paper_and_processed_paper_products =
    "MiscellaneousPulpPaperAndProcessedPaperProducts"
spend_name SpendCategory.printing_plate_making_and_book_binding =
    "PrintingPlateMakingAndBookBinding"
spend_name SpendCategory.chemical_fertilizer = "ChemicalFertilizer"
spend_name SpendCategory.industrial_soda_chemicals = "IndustrialSodaChemicals"
spend_name SpendCategory.inorganic_pigment = "InorganicPigment"
spend_name SpendCategory.compressed_gas_and_liquefied_gas = "CompressedGasAndLiquefiedGas"
spend_name SpendCategory.salt = "Salt"
spend_name SpendCategory.miscellaneous_industrial_inorganic_chemicals =
    "MiscellaneousIndustrialInorganicChemicals"
spend_name SpendCategory.petrochemical_basic_products = "PetrochemicalBasicProducts"
spend_name SpendCategory.petrochemical_aromatic_products_except_synthetic_resin =
    "PetrochemicalAromaticProductsExceptSyntheticResin"
spend_name SpendCategory.aliphatic_intermediates = "AliphaticIntermediates"
spend_name SpendCategory.cyclic_intermediates_synthetic_dyes_and_organic_pigments =
    "CyclicIntermediatesSyntheticDyesAndOrganicPigments"
spend_name SpendCategory.synthetic_rubber = "SyntheticRubber"
spend_name SpendCategory.methane_derivatives = "MethaneDerivatives"
spend_name SpendCategory.plasticizers = "Plasticizers"
spend_name SpendCategory.miscellaneous_industrial_organic_chemicals =
    "MiscellaneousIndustrialOrganicChemicals"
spend_name SpendCategory.thermo_setting_resins = "ThermoSettingResins"
spend_name SpendCategory.thermoplastics_resins = "ThermoplasticsResins"
spend_name SpendCategory.high_function_resins = "HighFunctionResins"
spend_name SpendCategory.miscellaneous_synthetic_resins = "MiscellaneousSyntheticResins"
spend_name SpendCategory.chemical_fibers = "ChemicalFibers"
spend_name SpendCategory.medicines = "Medicines"
spend_name SpendCategory.oil_and_fat_products_and_surface_active_agents =
    "OilAndFatProductsAndSurfaceActiveAgents"
spend_name SpendCategory.cosmetics_toilet_preparations_and_dentifrices =
    "CosmeticsToiletPreparationsAndDentifrices"
spend_name SpendCategory.paint_and_varnishes = "PaintAndVarnishes"
spend_name SpendCategory.printing_ink = "PrintingInk"
spend_name SpendCategory.agricultural_chemicals = "AgriculturalChemicals"
spend_name SpendCategory.gelatin_and_adhesives = "GelatinAndAdhesives"
spend_name SpendCategory.photographic_sensitive_materials = "PhotographicSensitiveMaterials"
spend_name SpendCategory.miscellaneous_final_chemical_products =
    "MiscellaneousFinalChemicalProducts"
spend_name SpendCategory.petroleum_refinery_products_including_greases =
    "PetroleumRefineryProductsIncludingGreases"
spend_name SpendCategory.coal_products = "CoalProducts"
spend_name SpendCategory.paving_materials = "PavingMaterials"
spend_name SpendCategory.plastic_products = "PlasticProducts"
spend_name SpendCategory.tires_and_inner_tubes = "TiresAndInnerTubes"
spend_name SpendCategory.miscellaneous_rubber_products = "MiscellaneousRubberProducts"
spend_name SpendCategory.leather_footwear = "LeatherFootwear"
spend_name SpendCategory.leather_tanning_leather_products_and_fur_skins_except_leather_footwear =
    "LeatherTanningLeatherProductsAndFurSkinsExceptLeatherFootwear"
spend_name SpendCategory.sheet_glass_and_safety_glass = "SheetGlassAndSafetyGlass"
spend_name SpendCategory.glass_fiber_and_glass_fiber_products_nec =
    "GlassFiberAndGlassFiberProductsNEC"
spend_name SpendCategory.miscellaneous_glass_products = "MiscellaneousGlassProducts"
spend_name SpendCategory.cement = "Cement"
spend_name SpendCategory.ready_mixed_concrete = "ReadyMixedConcrete"
spend_name SpendCategory.cement_products = "CementProducts"
spend_name SpendCategory.pottery_china_and_earthenware = "PotteryChinaAndEarthenware"
spend_name SpendCategory.clay_refractories = "ClayRefractories"
spend_name SpendCategory.miscellaneous_structural_clay_products =
    "MiscellaneousStructuralClayProducts"
spend_name SpendCategory.carbon_and_graphite_products = "CarbonAndGraphiteProducts"
spend_name SpendCategory.abrasive_and_its_products = "AbrasiveAndItsProducts"
spend_name SpendCategory.miscellaneous_ceramic_stone_and_clay_products =
    "MiscellaneousCeramicStoneAndClayProducts"
spend_name SpendCategory.pig_iron = "PigIron"
spend_name SpendCategory.ferro_alloys = "FerroAlloys"
spend_name SpendCategory.crude_steel_converters = "CrudeSteelConverters"
spend_name SpendCategory.crude_steel_electric_furnaces = "CrudeSteelElectricFurnaces"
spend_name SpendCategory.scrap_iron = "ScrapIron"
spend_name SpendCategory.hot_rolled_steel = "HotRolledSteel"
spend_name SpendCategory.steel_pipes_and_tubes = "SteelPipesAndTubes"
spend_name SpendCategory.cold_finished_steel = "ColdFinishedSteel"
spend_name SpendCategory.coated_steel = "CoatedSteel"
spend_name SpendCategory.cast_and_forged_steel = "CastAndForgedSteel"
spend_name SpendCategory.cast_iron_pipes_and_tubes = "CastIronPipesAndTubes"
spend_name SpendCategory.cast_and_forged_materials_iron = "CastAndForgedMaterialsIron"
spend_name SpendCategory.iron_and_steel_shearing_and_slitting = "IronAndSteelShearingAndSlitting"
spend_name SpendCategory.miscellaneous_iron_or_steel_products = "MiscellaneousIronOrSteelProducts"
spend_name SpendCategory.copper = "Copper"
spend_name SpendCategory.lead_and_zinc_including_regenerated_lead =
    "LeadAndZincIncludingRegeneratedLead"
spend_name SpendCategory.aluminum_including_regenerated_aluminum =
    "AluminumIncludingRegeneratedAluminum"
spend_name SpendCategory.miscellaneous_non_ferrous_metals = "MiscellaneousNonFerrousMetals"
spend_name SpendCategory.non_ferrous_metal_scrap = "NonFerrousMetalScrap"
spend_name SpendCategory.electric_wires_and_cables = "ElectricWiresAndCables"
spend_name SpendCategory.optical_fiber_cables = "OpticalFiberCables"
spend_name SpendCategory.rolled_and_drawn_copper_and_copper_alloys =
    "RolledAndDrawnCopperAndCopperAlloys"
spend_name SpendCategory.rolled_and_drawn_aluminum = "RolledAndDrawnAluminum"
spend_name SpendCategory.non_ferrous_metal_castings_and_forgings =
    "NonFerrousMetalCastingsAndForgings"
spend_name SpendCategory.nuclear_fuels = "NuclearFuels"
spend_name SpendCategory.miscellaneous_non_ferrous_metal_products =
    "MiscellaneousNonFerrousMetalProducts"
spend_name SpendCategory.fabricated_construction_use_metal_products =
    "FabricatedConstructionUseMetalProducts"
spend_name SpendCategory.fabricated_architectural_metal_products =
    "FabricatedArchitecturalMetalProducts"
spend_name SpendCategory.gas_and_oil_appliances_heating_and_cooking_apparatus =
    "GasAndOilAppliancesHeatingAndCookingApparatus"
spend_name SpendCategory.bolts_nuts_rivets_and_springs = "BoltsNutsRivetsAndSprings"
spend_name SpendCategory.metal_containers_fabricated_plate_and_sheet_metal =
    "MetalContainersFabricatedPlateAndSheetMetal"
spend_name SpendCategory.plumbing_accessories_powder_metallurgy_products_and_tools =
    "PlumbingAccessoriesPowderMetallurgyProductsAndTools"
spend_name SpendCategory.miscellaneous_metal_products = "MiscellaneousMetalProducts"
spend_name SpendCategory.boilers = "Boilers"
spend_name SpendCategory.turbines = "Turbines"
spend_name SpendCategory.engines = "Engines"
spend_name SpendCategory.pumps_and_compressors = "PumpsAndCompressors"
spend_name SpendCategory.conveyors = "Conveyors"
spend_name SpendCategory.refrigerators_and_air_conditioning_apparatus =
    "RefrigeratorsAndAirConditioningApparatus"
spend_name SpendCategory.bearings = "Bearings"
spend_name SpendCategory.miscellaneous_general_purpose_machinery =
    "MiscellaneousGeneralPurposeMachinery"
spend_name SpendCategory.machinery_for_agricultural_use = "MachineryForAgriculturalUse"
spend_name SpendCategory.machinery_and_equipment_for_construction_and_mining =
    "MachineryAndEquipmentForConstructionAndMining"
spend_name SpendCategory.textile_machinery = "TextileMachinery"
spend_name SpendCategory.daily_lives_industry_machinery = "DailyLivesIndustryMachinery"
spend_name SpendCategory.chemical_machinery = "ChemicalMachinery"
spend_name SpendCategory.casting_equipment_and_plastic_processing_machinery =
    "CastingEquipmentAndPlasticProcessingMachinery"
spend_name SpendCategory.metal_machine_tools = "MetalMachineTools"
spend_name SpendCategory.metal_processing_machinery = "MetalProcessingMachinery"
spend_name SpendCategory.machinists_precision_tools = "MachinistsPrecisionTools"
spend_name SpendCategory.semiconductor_making_equipment = "SemiconductorMakingEquipment"
spend_name SpendCategory.metal_molds = "MetalMolds"
spend_name SpendCategory.vacuum_equipment_and_vacuum_component = "VacuumEquipmentAndVacuumComponent"
spend_name SpendCategory.robots = "Robots"
spend_name SpendCategory.miscellaneous_production_machinery = "MiscellaneousProductionMachinery"
spend_name SpendCategory.copy_machine = "CopyMachine"
spend_name SpendCategory.miscellaneous_office_machines = "MiscellaneousOfficeMachines"
spend_name SpendCategory.service_industry_and_amusement_machines =
    "ServiceIndustryAndAmusementMachines"
spend_name SpendCategory.measuring_instruments = "MeasuringInstruments"
spend_name SpendCategory.medical_instruments = "MedicalInstruments"
spend_name SpendCategory.optical_instruments_and_lenses = "OpticalInstrumentsAndLenses"
spend_name SpendCategory.ordnance = "Ordnance"
spend_name SpendCategory.semiconductor_devices = "SemiconductorDevices"
spend_name SpendCategory.integrated_circuits = "IntegratedCircuits"
spend_name SpendCategory.liquid_crystal_panel = "LiquidCrystalPanel"
spend_name SpendCategory.flat_panel_and_electron_tubes = "FlatPanelAndElectronTubes"
spend_name SpendCategory.storage_media = "StorageMedia"
spend_name SpendCategory.electric_circuit = "ElectricCircuit"
spend_name SpendCategory.miscellaneous_electronic_components = "MiscellaneousElectronicComponents"
spend_name SpendCategory.rotating_electrical_equipment = "RotatingElectricalEquipment"
spend_name SpendCategory.transformers_and_reactors = "TransformersAndReactors"
spend_name SpendCategory.relay_switches_and_switchboards = "RelaySwitchesAndSwitchboards"
spend_name SpendCategory.wiring_devices_and_supplies = "WiringDevicesAndSupplies"
spend_name SpendCategory.electrical_equipment_for_internal_combustion_engines =
    "ElectricalEquipmentForInternalCombustionEngines"
spend_name SpendCategory.miscellaneous_electrical_devices_and_parts =
    "MiscellaneousElectricalDevicesAndParts"
spend_name SpendCategory.household_air_conditioners = "HouseholdAirConditioners"
spend_name SpendCategory.household_electric_appliances_except_air_conditioners =
    "HouseholdElectricAppliancesExceptAirConditioners"
spend_name SpendCategory.applied_electronic_equipment = "AppliedElectronicEquipment"
spend_name SpendCategory.electric_measuring_instruments = "ElectricMeasuringInstruments"
spend_name SpendCategory.electric_bulbs = "ElectricBulbs"
spend_name SpendCategory.electric_lighting_fixtures_and_apparatus =
    "ElectricLightingFixturesAndApparatus"
spend_name SpendCategory.batteries = "Batteries"
spend_name SpendCategory.wired_communication_equipment = "WiredCommunicationEquipment"
spend_name SpendCategory.mobile_phone = "MobilePhone"
spend_name SpendCategory.radio_communication_equipment_except_mobile_phone =
    "RadioCommunicationEquipmentExceptMobilePhone"
spend_name SpendCategory.radio_and_television_sets = "RadioAndTelevisionSets"
spend_name SpendCategory.miscellaneous_communication_equipment =
    "MiscellaneousCommunicationEquipment"
spend_name SpendCategory.video_equipment_and_digital_camera = "VideoEquipmentAndDigitalCamera"
spend_name SpendCategory.electric_audio_equipment = "ElectricAudioEquipment"
spend_name SpendCategory.personal_computers = "PersonalComputers"
spend_name SpendCategory.electronic_computing_equipment_except_personal_computers =
    "ElectronicComputingEquipmentExceptPersonalComputers"
spend_name SpendCategory.electronic_computing_equipment_accessory_equipment =
    "ElectronicComputingEquipmentAccessoryEquipment"
spend_name SpendCategory.passenger_motor_cars_hybrid_cars = "PassengerMotorCarsHybridCars"
spend_name SpendCategory.passenger_motor_cars_except_hybrid_cars =
    "PassengerMotorCarsExceptHybridCars"
spend_name SpendCategory.trucks_buses_and_miscellaneous_cars = "TrucksBusesAndMiscellaneousCars"
spend_name SpendCategory.two_wheel_motor_vehicles = "TwoWheelMotorVehicles"
spend_name SpendCategory.internal_combustion_engines_for_motor_vehicles =
    "InternalCombustionEnginesForMotorVehicles"
spend_name SpendCategory.motor_vehicle_parts_and_accessories = "MotorVehiclePartsAndAccessories"
spend_name SpendCategory.steel_ships = "SteelShips"
spend_name SpendCategory.miscellaneous_ships_except_steel_ships =
    "MiscellaneousShipsExceptSteelShips"
spend_name SpendCategory.internal_combustion_engines_for_vessels =
    "InternalCombustionEnginesForVessels"
spend_name SpendCategory.repair_of_ships = "RepairOfShips"
spend_name SpendCategory.rolling_stock = "RollingStock"
spend_name SpendCategory.repair_of_rolling_stock = "RepairOfRollingStock"
spend_name SpendCategory.aircrafts = "Aircrafts"
spend_name SpendCategory.repair_of_aircrafts = "RepairOfAircrafts"
spend_name SpendCategory.bicycles = "Bicycles"
spend_name SpendCategory.miscellaneous_transport_equipment = "MiscellaneousTransportEquipment"
spend_name SpendCategory.toys_and_games = "ToysAndGames"
spend_name SpendCategory.sporting_and_athletic_goods = "SportingAndAthleticGoods"
spend_name SpendCategory.jewelry_and_adornments = "JewelryAndAdornments"
spend_name SpendCategory.watches_and_clocks = "WatchesAndClocks"
spend_name SpendCategory.musical_instruments = "MusicalInstruments"
spend_name SpendCategory.stationery = "Stationery"
spend_name SpendCategory.tatami_straw_matting_and_straw_products =
    "TatamiStrawMattingAndStrawProducts"
spend_name SpendCategory.audio_and_video_records_other_information_recording_media =
    "AudioAndVideoRecordsOtherInformationRecordingMedia"
spend_name SpendCategory.miscellaneous_manufacturing_products = "MiscellaneousManufacturingProducts"
spend_name SpendCategory.reuse_and_recycling = "ReuseAndRecycling"
spend_name SpendCategory.residential_construction_wooden = "ResidentialConstructionWooden"
spend_name SpendCategory.residential_construction_non_wooden = "ResidentialConstructionNonWooden"
spend_name SpendCategory.non_residential_construction_wooden = "NonResidentialConstructionWooden"
spend_name SpendCategory.non_residential_construction_non_wooden =
    "NonResidentialConstructionNonWooden"
spend_name SpendCategory.repair_of_construction = "RepairOfConstruction"
spend_name SpendCategory.public_construction_of_roads = "PublicConstructionOfRoads"
spend_name
      SpendCategory.public_construction_of_rivers_drainages_and_miscellaneous_public_construction =
    "PublicConstructionOfRiversDrainagesAndMiscellaneousPublicConstruction"
spend_name SpendCategory.agricultural_public_construction = "AgriculturalPublicConstruction"
spend_name SpendCategory.railway_construction = "RailwayConstruction"
spend_name SpendCategory.electric_power_facilities_construction =
    "ElectricPowerFacilitiesConstruction"
spend_name SpendCategory.telecommunication_facilities_construction =
    "TelecommunicationFacilitiesConstruction"
spend_name SpendCategory.miscellaneous_civil_engineering_and_construction =
    "MiscellaneousCivilEngineeringAndConstruction"
spend_name SpendCategory.electricity = "Electricity"
spend_name SpendCategory.gas_supply = "GasSupply"
spend_name SpendCategory.steam_and_hot_water_supply = "SteamAndHotWaterSupply"
spend_name SpendCategory.water_supply = "WaterSupply"
spend_name SpendCategory.industrial_water_supply = "IndustrialWaterSupply"
spend_name SpendCategory.sewage_disposal = "SewageDisposal"
spend_name SpendCategory.waste_management_services_public_corporation =
    "WasteManagementServicesPublicCorporation"
spend_name SpendCategory.waste_management_services = "WasteManagementServices"
spend_name SpendCategory.wholesale_trade = "WholesaleTrade"
spend_name SpendCategory.retail_trade = "RetailTrade"
spend_name SpendCategory.financial_service = "FinancialService"
spend_name SpendCategory.life_insurance = "LifeInsurance"
spend_name SpendCategory.non_life_insurance = "NonLifeInsurance"
spend_name SpendCategory.real_estate_agencies_and_managers = "RealEstateAgenciesAndManagers"
spend_name SpendCategory.real_estate_rental_service = "RealEstateRentalService"
spend_name SpendCategory.house_rent = "HouseRent"
spend_name SpendCategory.house_rent_imputed_house_rent = "HouseRentImputedHouseRent"
spend_name SpendCategory.railway_transport_passengers = "RailwayTransportPassengers"
spend_name SpendCategory.railway_transport_freight = "RailwayTransportFreight"
spend_name SpendCategory.bus_transport_service = "BusTransportService"
spend_name SpendCategory.hired_car_and_taxi_transport = "HiredCarAndTaxiTransport"
spend_name SpendCategory.road_freight_transport_except_self_transport =
    "RoadFreightTransportExceptSelfTransport"
spend_name SpendCategory.self_transport_passengers = "SelfTransportPassengers"
spend_name SpendCategory.self_transport_freight = "SelfTransportFreight"
spend_name SpendCategory.international_shipping = "InternationalShipping"
spend_name SpendCategory.coastal_and_inland_water_transport = "CoastalAndInlandWaterTransport"
spend_name SpendCategory.harbor_transport_service = "HarborTransportService"
spend_name SpendCategory.air_transport = "AirTransport"
spend_name SpendCategory.consigned_freight_forwarding = "ConsignedFreightForwarding"
spend_name SpendCategory.storage_facility_service = "StorageFacilityService"
spend_name SpendCategory.packing_service = "PackingService"
spend_name SpendCategory.facility_service_for_road_transport = "FacilityServiceForRoadTransport"
spend_name SpendCategory.port_and_water_traffic_control_public_corporation =
    "PortAndWaterTrafficControlPublicCorporation"
spend_name SpendCategory.port_and_water_traffic_control = "PortAndWaterTrafficControl"
spend_name SpendCategory.services_relating_to_water_transport = "ServicesRelatingToWaterTransport"
spend_name SpendCategory.airport_and_air_traffic_control_public_corporation =
    "AirportAndAirTrafficControlPublicCorporation"
spend_name SpendCategory.airport_and_air_traffic_control = "AirportAndAirTrafficControl"
spend_name SpendCategory.services_relating_to_air_transport = "ServicesRelatingToAirTransport"
spend_name SpendCategory.travel_agency_and_miscellaneous_services_relating_to_transport =
    "TravelAgencyAndMiscellaneousServicesRelatingToTransport"
spend_name SpendCategory.postal_services_and_mail_delivery = "PostalServicesAndMailDelivery"
spend_name SpendCategory.fixed_telecommunications = "FixedTelecommunications"
spend_name SpendCategory.mobile_telecommunications = "MobileTelecommunications"
spend_name SpendCategory.services_relating_to_telecommunications =
    "ServicesRelatingToTelecommunications"
spend_name SpendCategory.public_broadcasting = "PublicBroadcasting"
spend_name SpendCategory.private_broadcasting = "PrivateBroadcasting"
spend_name SpendCategory.cable_broadcasting = "CableBroadcasting"
spend_name SpendCategory.information_services = "InformationServices"
spend_name SpendCategory.internet_based_services = "InternetBasedServices"
spend_name
      SpendCategory.video_picture_sound_information_character_information_production_except_newspaper_or_publication =
    "VideoPictureSoundInformationCharacterInformationProductionExceptNewspaperOrPublication"
spend_name SpendCategory.newspaper = "Newspaper"
spend_name SpendCategory.publication = "Publication"
spend_name SpendCategory.public_administration_central_government =
    "PublicAdministrationCentralGovernment"
spend_name SpendCategory.public_administration_local_government =
    "PublicAdministrationLocalGovernment"
spend_name SpendCategory.school_education_public_institution = "SchoolEducationPublicInstitution"
spend_name SpendCategory.school_education_npi = "SchoolEducationNpi"
spend_name SpendCategory.school_lunch_public_institution = "SchoolLunchPublicInstitution"
spend_name SpendCategory.school_lunch_npi = "SchoolLunchNpi"
spend_name SpendCategory.social_education_public_institution = "SocialEducationPublicInstitution"
spend_name SpendCategory.social_education_npi = "SocialEducationNpi"
spend_name SpendCategory.miscellaneous_educational_and_training_institutions_public_institution =
    "MiscellaneousEducationalAndTrainingInstitutionsPublicInstitution"
spend_name SpendCategory.miscellaneous_educational_and_training_institutions =
    "MiscellaneousEducationalAndTrainingInstitutions"
spend_name SpendCategory.research_institutes_for_natural_science_public_institution =
    "ResearchInstitutesForNaturalSciencePublicInstitution"
spend_name SpendCategory.research_institutes_for_cultural_and_social_science_public_institution =
    "ResearchInstitutesForCulturalAndSocialSciencePublicInstitution"
spend_name SpendCategory.research_institutes_for_natural_sciences_npi =
    "ResearchInstitutesForNaturalSciencesNpi"
spend_name SpendCategory.research_institutes_for_cultural_and_social_science_npi =
    "ResearchInstitutesForCulturalAndSocialScienceNpi"
spend_name SpendCategory.research_institutes_for_natural_sciences =
    "ResearchInstitutesForNaturalSciences"
spend_name SpendCategory.research_institutes_for_cultural_and_social_science =
    "ResearchInstitutesForCulturalAndSocialScience"
spend_name SpendCategory.research_and_development_intra_enterprise =
    "ResearchAndDevelopmentIntraEnterprise"
spend_name SpendCategory.medical_service_general_hospitals = "MedicalServiceGeneralHospitals"
spend_name SpendCategory.medical_service_clinics_of_medical_practitioners =
    "MedicalServiceClinicsOfMedicalPractitioners"
spend_name SpendCategory.medical_service_dentistry = "MedicalServiceDentistry"
spend_name SpendCategory.medical_service_pharmacies = "MedicalServicePharmacies"
spend_name SpendCategory.medical_service_miscellaneous_medical_service =
    "MedicalServiceMiscellaneousMedicalService"
spend_name SpendCategory.health_and_hygiene_public_institution = "HealthAndHygienePublicInstitution"
spend_name SpendCategory.health_and_hygiene = "HealthAndHygiene"
spend_name SpendCategory.social_insurance = "SocialInsurance"
spend_name SpendCategory.social_welfare_public_institution = "SocialWelfarePublicInstitution"
spend_name SpendCategory.social_welfare_npi = "SocialWelfareNpi"
spend_name SpendCategory.social_welfare = "SocialWelfare"
spend_name SpendCategory.nursery = "Nursery"
spend_name SpendCategory.nursing_care_facility_services = "NursingCareFacilityServices"
spend_name SpendCategory.nursing_care_except_facility_services = "NursingCareExceptFacilityServices"
spend_name SpendCategory.membership_based_business_associations =
    "MembershipBasedBusinessAssociations"
spend_name SpendCategory.private_non_profit_institutions_serving_households_nec =
    "PrivateNonProfitInstitutionsServingHouseholdsNEC"
spend_name SpendCategory.goods_rental_and_leasing_except_car_rental =
    "GoodsRentalAndLeasingExceptCarRental"
spend_name SpendCategory.car_rental_and_leasing = "CarRentalAndLeasing"
spend_name SpendCategory.advertising_services = "AdvertisingServices"
spend_name SpendCategory.motor_vehicle_maintenance_services = "MotorVehicleMaintenanceServices"
spend_name SpendCategory.machine_repair_services = "MachineRepairServices"
spend_name SpendCategory.judicial_financial_and_accounting_services =
    "JudicialFinancialAndAccountingServices"
spend_name SpendCategory.civil_engineering_and_construction_services =
    "CivilEngineeringAndConstructionServices"
spend_name SpendCategory.worker_dispatching_services = "WorkerDispatchingServices"
spend_name SpendCategory.building_maintenance_services = "BuildingMaintenanceServices"
spend_name SpendCategory.guard_services = "GuardServices"
spend_name SpendCategory.slaughterhouse_public_corporation = "SlaughterhousePublicCorporation"
spend_name SpendCategory.slaughterhouse = "Slaughterhouse"
spend_name SpendCategory.miscellaneous_business_services = "MiscellaneousBusinessServices"
spend_name SpendCategory.accommodations = "Accommodations"
spend_name SpendCategory.eating_and_drinking_places = "EatingAndDrinkingPlaces"
spend_name SpendCategory.food_take_out_and_delivery_services = "FoodTakeOutAndDeliveryServices"
spend_name SpendCategory.laundries = "Laundries"
spend_name SpendCategory.barber_shops = "BarberShops"
spend_name SpendCategory.hair_dressing_and_beauty_salon = "HairDressingAndBeautySalon"
spend_name SpendCategory.bathhouses = "Bathhouses"
spend_name SpendCategory.miscellaneous_laundry_beauty_and_bath_service =
    "MiscellaneousLaundryBeautyAndBathService"
spend_name SpendCategory.cinemas = "Cinemas"
spend_name SpendCategory.performances_except_movie_theaters_theatrical_comranies =
    "PerformancesExceptMovieTheatersTheatricalComranies"
spend_name SpendCategory.stadiums_and_companies_of_bicycle_horse_motorcar_and_motorboat_races =
    "StadiumsAndCompaniesOfBicycleHorseMotorcarAndMotorboatRaces"
spend_name SpendCategory.sport_facility_service_public_gardens_and_amusement_parks =
    "SportFacilityServicePublicGardensAndAmusementParks"
spend_name SpendCategory.amusement_and_recreation_facilities_and_services =
    "AmusementAndRecreationFacilitiesAndServices"
spend_name SpendCategory.veterinary_service = "VeterinaryService"
spend_name SpendCategory.photographic_studios = "PhotographicStudios"
spend_name SpendCategory.ceremonial_occasions = "CeremonialOccasions"
spend_name
      SpendCategory.supplementary_tutorial_schools_instruction_services_for_arts_culture_and_technical_skills =
    "SupplementaryTutorialSchoolsInstructionServicesForArtsCultureAndTechnicalSkills"
spend_name SpendCategory.miscellaneous_repairs_nec = "MiscellaneousRepairsNEC"
spend_name SpendCategory.miscellaneous_personal_services = "MiscellaneousPersonalServices"
spend_name SpendCategory.office_supplies = "OfficeSupplies"
spend_name SpendCategory.activities_not_elsewhere_classified = "ActivitiesNotElsewhereClassified"
